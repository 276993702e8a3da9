-- ===== src/Updater/Served.antt =====
-- Which file the classifier answers from, after any updates.
use sentrydns.Base.{
  arith, refl, ℕ, ◌≡◌, Bool, true, false, not, Option, none, some, ◌==◌, if◌then◌else◌, take, Text,
  Bool-cases, ◌⊎◌, inl, inr, ap, sym, ◌∙◌,
}
use sentrydns.StateFile.{Json}
use sentrydns.Netip.{Netip}
use sentrydns.Classifier
use sentrydns.Classifier.{Classifier, LoadError, not_read, Result, ok, err, reload}
use sentrydns.Classifier.Ranges.{reload_lem}
use sentrydns.Updater.{
  Updater, Download, Cidr, max_read_bytes, contains_valid_cidr, set_update_success, finish, replace,
  receive, of_reply, update,
}

-- `New` makes this classifier of this file.
abbrev pub Serves : Netip → Text → Classifier → Type 0
Serves net text c = Classifier.new net true (some text) ≡ ok c

-- An update that reports success has put the text to use, and one that does not has left the
-- classifier alone.
abbrev pub Settled : Netip → Text → Updater → Updater → Type 0
Settled net text u u' =
    ((u'.last_update_success ≡ true) × Serves net text u'.classifier × (u'.file ≡ some text))
    ⊎ ((u'.last_update_success ≡ false) × (u'.classifier ≡ u.classifier))

new_complete :
    (net : Netip) (scanned reopened : Bool) (text : Text) (c : Classifier)
    → Classifier.new net scanned (if reopened then some text else none) ≡ ok c
    → Serves net text c
unfolding Classifier.new
new_complete net true true text c h = h
new_complete net false true text c h = absurd (ground (arith, h))
new_complete net scanned false text c h = absurd (ground (arith, h))

finish-ok :
    (json : Json) (d : Download) (u : Updater)
    → ((finish json d none u).last_update_success ≡ true)
      × ((finish json d none u).classifier ≡ u.classifier)
      × ((finish json d none u).file ≡ u.file)
unfolding finish
finish-ok json d u = (ground arith, ground arith, ground arith)

pub failed :
    (json : Json) (d : Download) (u : Updater)
    → ((set_update_success json d false u).last_update_success ≡ false)
      × ((set_update_success json d false u).classifier ≡ u.classifier)
      × ((set_update_success json d false u).file ≡ u.file)
unfolding set_update_success
failed json d u = (ground arith, ground arith, ground arith)

replace-Settled :
    (json : Json) (net : Netip) (d : Download) (text : Text) (u : Updater)
    → Settled net text u (replace json net d text u)
unfolding replace finish
replace-Settled json net d text u = elim (Bool-cases d.renamed) [
  | inr e ↦ rw e (let f = failed json d u in inr (f.0, f.1))
  | inl e ↦ elim (reload_lem net d.scanned (if d.reopened then some text else none) u.classifier) [
    | inl (why, bad, r) ↦
        rw (e, r) (let f = failed json d (record u { file = some text }) in inr (f.0, f.1))
    | inr (c, good, r) ↦
        rw (e, r)
          (let f = finish-ok json d (record u { file = some text; classifier = c }) in
            inl (f.0, new_complete net d.scanned d.reopened text c good ∙ sym (ap ok (f.1)), f.2))
  ]
]

-- What an update may do: nothing to the classifier, or put a downloaded body to use, cut off at the
-- limit, of which ten lines that the scanner saw are ranges.
abbrev pub Updated : Netip → Cidr → Download → Updater → Updater → Type 0
Updated net cidr d u u' =
    ((body : Text) × (d.reply ≡ some (200, body))
      × (contains_valid_cidr cidr d (take max_read_bytes body) ≡ true)
      × (u'.last_update_success ≡ true)
      × Serves net (take max_read_bytes body) u'.classifier
      × (u'.file ≡ some (take max_read_bytes body)))
    ⊎ ((u'.last_update_success ≡ false) × (u'.classifier ≡ u.classifier))

if-Updated :
    (net : Netip) (cidr : Cidr) (d : Download) (u : Updater) (b : Bool) (x y : Updater)
    → (b ≡ true → Updated net cidr d u x)
    → (b ≡ false → Updated net cidr d u y)
    → Updated net cidr d u (if b then x else y)
if-Updated net cidr d u true x y p q = p refl
if-Updated net cidr d u false x y p q = q refl

receive-Updated :
    (json : Json) (net : Netip) (cidr : Cidr) (d : Download) (status : ℕ) (body : Text)
    (u : Updater)
    → d.reply ≡ some (status, body)
    → Updated net cidr d u (receive json net cidr d status body u)
unfolding receive
receive-Updated json net cidr d status body u e =
    let text = take max_read_bytes body in
    let f = failed json d u in
    let bad : Updated net cidr d u (set_update_success json d false u) = inr (f.0, f.1) in
    if-Updated net cidr d u (not (status == 200)) _ _ (λ h. bad)
      (λ h.
        if-Updated net cidr d u (not d.created) _ _ (λ h1. bad)
          (λ h1.
            if-Updated net cidr d u (not d.copied) _ _ (λ h2. bad)
              (λ h2.
                if-Updated net cidr d u (not (contains_valid_cidr cidr d text)) _ _ (λ h3. bad)
                  (λ h3. elim (replace-Settled json net d text u) [
                    | inl s ↦ inl (
                      body,
                      e ∙ ap (λ (n : ℕ). some (n, body)) (ground (arith, h)),
                      ground (arith, h3),
                      s.0,
                      s.1,
                      s.2,
                    )
                    | inr s ↦ inr s
                  ]))))

of_reply-Updated :
    (json : Json) (net : Netip) (cidr : Cidr) (d : Download) (o : Option (ℕ × Text)) (u : Updater)
    → d.reply ≡ o
    → Updated net cidr d u (of_reply json net cidr d o u)
unfolding of_reply
of_reply-Updated json net cidr d none u e = let f = failed json d u in inr (f.0, f.1)
of_reply-Updated json net cidr d (some (status, body)) u e =
    receive-Updated json net cidr d status body u e

-- An update either fails, reports it and leaves the classifier as it was, or reports success: then the
-- response had the status 200, the scanner saw ten ranges among the lines of its body (of at most 100
-- MB), that body is now the file, and the classifier is what `New` makes of the whole of it.
pub update-Updated :
    (json : Json) (net : Netip) (cidr : Cidr) (d : Download) (u : Updater)
    → Updated net cidr d u (update json net cidr d u)
unfolding update
update-Updated json net cidr d u = of_reply-Updated json net cidr d d.reply u refl
