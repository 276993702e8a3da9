-- ===== src/Updater/History.antt =====
-- Any number of updates, one after the other.
use sentrydns.Base.{
  arith, refl, ◌≡◌, Bool, true, false, none, some, List, [], ◌∷◌, take, Text, if◌then◌else◌, ◌⊎◌,
  inl, inr, sym, ◌∙◌, ap, Any, here, there,
}
use sentrydns.StateFile.{Json}
use sentrydns.Netip.{Netip}
use sentrydns.Classifier
use sentrydns.Classifier.{Classifier, LoadError, not_read, Result, ok, err, reload}
use sentrydns.Updater.{
  Updater, Download, Cidr, max_read_bytes, contains_valid_cidr, set_update_success, finish, replace,
  receive, of_reply, update, run,
}
use sentrydns.Updater.Served.{Serves, update-Updated, failed}

-- The classifier is what `New` makes of the body of this download, which passed the test.
abbrev pub Source : Netip → Cidr → Classifier → Download → Type 0
Source net cidr c d =
    (body : Text) × (d.reply ≡ some (200, body))
    × (contains_valid_cidr cidr d (take max_read_bytes body) ≡ true)
    × Serves net (take max_read_bytes body) c

-- Whatever the server answers and whichever calls fail, after any updates the classifier is the one it
-- was before them, or what `New` makes of the body of one of the responses, cut off after 100 MB, which
-- had the status 200 and passed the test for ten ranges: `New` read all of it without an error.
pub run-Source :
    (json : Json) (net : Netip) (cidr : Cidr) (ds : List Download) (u : Updater)
    → ((run json net cidr ds u).classifier ≡ u.classifier)
      ⊎ Any (Source net cidr (run json net cidr ds u).classifier) ds
unfolding run
run-Source json net cidr [] u = inl refl
run-Source json net cidr (d ∷ ds) u =
    let u' = update json net cidr d u in
    elim (run-Source json net cidr ds u') [
      | inr f ↦ inr (there f)
      | inl same ↦ elim (update-Updated json net cidr d u) [
        | inl (body, reply, enough, won, serves, file) ↦
            inr (here (body, reply, enough, serves ∙ sym (ap ok same)))
        | inr (lost, kept) ↦ inl (same ∙ kept)
      ]
    ]

new-not_read :
    (net : Netip) (scanned : Bool) (text : Text)
    → scanned ≡ false
    → Classifier.new net scanned (some text) ≡ err not_read
unfolding Classifier.new
new-not_read net scanned text h = ground (arith, h)

reload-not_read :
    (net : Netip) (d : Download) (text : Text) (c : Classifier)
    → d.reopened ≡ true
    → d.scanned ≡ false
    → reload net d.scanned (if d.reopened then some text else none) c ≡ (c, some not_read)
unfolding reload Classifier.new
reload-not_read net d text c reopened scanned =
    ap (λ b. reload net d.scanned (if b then some text else none) c) reopened
    ∙ ap (λ b. reload net b (some text) c) scanned

replace-failed :
    (json : Json) (net : Netip) (d : Download) (text : Text) (u : Updater) (why : LoadError)
    → reload net d.scanned (if d.reopened then some text else none) u.classifier
      ≡ (u.classifier, some why)
    → d.renamed ≡ true
    → replace json net d text u ≡ set_update_success json d false (record u { file = some text })
unfolding replace finish
replace-failed json net d text u why e renamed = rw (e, renamed) refl

receive-replace :
    (json : Json) (net : Netip) (cidr : Cidr) (d : Download) (body : Text) (u : Updater)
    → d.created ≡ true
    → d.copied ≡ true
    → contains_valid_cidr cidr d (take max_read_bytes body) ≡ true
    → receive json net cidr d 200 body u ≡ replace json net d (take max_read_bytes body) u
unfolding receive
receive-replace json net cidr d body u created copied enough = ground arith

update-set_update_success :
    (json : Json) (net : Netip) (cidr : Cidr) (d : Download) (body : Text) (u : Updater)
    → d.reply ≡ some (200, body)
    → d.created ≡ true
    → d.copied ≡ true
    → d.renamed ≡ true
    → d.reopened ≡ true
    → d.scanned ≡ false
    → contains_valid_cidr cidr d (take max_read_bytes body) ≡ true
    → update json net cidr d u
      ≡ set_update_success json d false (record u { file = some (take max_read_bytes body) })
unfolding update of_reply
update-set_update_success json net cidr d body u reply created copied renamed reopened scanned
      enough =
    let text = take max_read_bytes body in
    ap (λ o. of_reply json net cidr d o u) reply
    ∙ receive-replace json net cidr d body u created copied enough
    ∙ replace-failed json net d text u not_read
        (reload-not_read net d text u.classifier reopened scanned) renamed

-- A downloaded text of which ten lines are ranges, but which the scanner of the classifier cannot
-- read to its end (a line is too long), takes the place of the file when every other call succeeds,
-- although the update fails and the classifier stays the old one: the next start, which loads the
-- same file, gets an error in place of a classifier.
pub update-not_read :
    (json : Json) (net : Netip) (cidr : Cidr) (d : Download) (body : Text) (u : Updater)
    → d.reply ≡ some (200, body)
    → d.created ≡ true
    → d.copied ≡ true
    → d.renamed ≡ true
    → d.reopened ≡ true
    → d.scanned ≡ false
    → contains_valid_cidr cidr d (take max_read_bytes body) ≡ true
    → ((update json net cidr d u).classifier ≡ u.classifier)
      × ((update json net cidr d u).last_update_success ≡ false)
      × ((update json net cidr d u).file ≡ some (take max_read_bytes body))
      × (Classifier.new net d.scanned (update json net cidr d u).file ≡ err not_read)
update-not_read json net cidr d body u reply created copied renamed reopened scanned enough =
    let text = take max_read_bytes body in
    let e =
      update-set_update_success json net cidr d body u reply created copied renamed reopened scanned
        enough in
    let f = failed json d (record u { file = some text }) in
    (
      ap (λ v. v.classifier) e ∙ f.1,
      ap (λ v. v.last_update_success) e ∙ f.0,
      ap (λ v. v.file) e ∙ f.2,
      ap (Classifier.new net d.scanned) (ap (λ v. v.file) e ∙ f.2)
          ∙ new-not_read net d.scanned text scanned,
    )
