-- ===== src/Scan/Walk/Files.antt =====
-- core/src/scan/scanner.rs: what a single file or archive makes the traversal offer.
use read_flow.Scan.Walk.Expected.{file_items, archive_items, items_of, member_items}
use read_flow.Paths.{display, joined_archive_path}
use read_flow.Scan.Walk.Offers.{proposed_path, offer_lem, Shut, Offered, offers}
use read_flow.Scan.Walk.{
  announce, continue_if, sent_then, emit_matching, send, spooled_members, propose, member_matches,
  visit_file, name_chars, emit_archive_members, path_extension, extension_matches, take_spooled,
  propose_members, tags_for_path, Pipe, send_members, item_of, Recording, TraversalItem,
  ScanSettings,
}
use read_flow.Scan.Archive.{is_archive_path, enumerate_archive_members, Spooled, ArchiveBody}
use read_flow.Prelude.{
  subst, Option, if◌then◌else◌, eqb, refl, ◌≡◌, arith, List, [], ◌∷◌, Bool, true, false, sym, ap,
  ◌∙◌, none, some, String, retain, not,
}

module _ (settings : ScanSettings) (recording : Recording) where
  propose_members_lem :
      (path tags : List String) (spooled : List Spooled) (ms : List String) (p : Pipe)
      → settings.dry_run ≡ true
      → propose_members settings recording path ms p
        ≡ offers settings recording ((member_items settings) path tags spooled ms) p
  unfolding propose_members offers member_items
  propose_members_lem path tags spooled [] p dry = refl
  propose_members_lem path tags spooled (m ∷ ms) p dry = rw dry (
      propose_members_lem path tags (retain (λ s. not (eqb s.inner m)) spooled) ms
        (propose settings recording (joined_archive_path (display path) m) p) dry)

  sent_then_lem :
      (is : List TraversalItem) (r : Bool × Pipe) (next : Pipe → Bool × Pipe)
      → (r.0 ≡ false → Shut settings recording r.1)
      → ((q : Pipe) → Offered settings recording is q (next q))
      → ((sent_then r next).1
          ≡ continue_if settings recording
              (sent_then r (λ q. (true, q)))
              (offers settings recording is))
        × ((sent_then r next).0 ≡ false → Shut settings recording (sent_then r next).1)
  sent_then_lem is (false, p) next shut did = (refl, λ refused. shut refl)
  sent_then_lem is (true, p) next shut did = did (announce p)

  send-Shut :
      (item : TraversalItem) (p : Pipe)
      → settings.dry_run ≡ false
      → (send item p).0 ≡ false
      → Shut settings recording (send item p).1
  send-Shut item p real refused = (real, ground (arith, refused))

  send_members_lem :
      (path tags : List String) (spooled : List Spooled) (ms : List String) (p : Pipe)
      → settings.dry_run ≡ false
      → Offered settings recording
          ((member_items settings) path tags spooled ms)
          p
          (send_members settings recording path tags spooled ms p)
  unfolding send_members offers member_items
  send_members_lem path tags spooled [] p real = (refl, λ refused. absurd (cc refused))
  send_members_lem path tags spooled (m ∷ ms) p real =
      let item = item_of path tags (some m) (take_spooled m spooled) in
      let left = retain (λ s. not (eqb s.inner m)) spooled in
      let sent =
        sent_then_lem ((member_items settings) path tags left ms) (send item p)
          (send_members settings recording path tags left ms) (send-Shut item p real)
          (λ q. send_members_lem path tags left ms q real) in
      (
        sent.0
            ∙ ap
                (λ b.
                  continue_if settings recording
                    (if b
                      then (
                        true,
                        propose settings recording (proposed_path settings recording item) p,
                      )
                      else sent_then (send item p) (λ q. (true, q)))
                    (offers settings recording ((member_items settings) path tags left ms)))
                (sym real),
        sent.1,
      )

  -- The items and the run branch on the same test.
  if_lem :
      (b : Bool) (is js : List TraversalItem) (p : Pipe) (r q : Bool × Pipe)
      → (b ≡ true → Offered settings recording is p r)
      → (b ≡ false → Offered settings recording js p q)
      → Offered settings recording (if b then is else js) p (if b then r else q)
  if_lem true is js p r q yes_ no_ = yes_ refl
  if_lem false is js p r q yes_ no_ = no_ refl

  pub nothing_lem : (p : Pipe) → Offered settings recording [] p (true, p)
  unfolding offers
  nothing_lem p = (refl, λ refused. absurd (cc refused))

  emit_matching_lem :
      (path tags : List String) (body : ArchiveBody) (ms : List String) (p : Pipe)
      → Offered settings recording
          ((member_items settings) path tags (spooled_members settings path body ms) ms)
          p
          (emit_matching settings recording path tags body ms p)
  emit_matching_lem path tags body ms p =
      let items = (member_items settings) path tags (spooled_members settings path body ms) ms in
      subst
        (λ is.
          Offered settings recording is p (emit_matching settings recording path tags body ms p))
        (if_same settings.dry_run items)
        (if_lem settings.dry_run items items p (true, propose_members settings recording path ms p)
          (send_members settings recording path tags (spooled_members settings path body ms) ms p)
          (λ dry. (
            propose_members_lem path tags (spooled_members settings path body ms) ms p dry,
            λ refused. absurd (cc refused),
          ))
          (λ real. send_members_lem path tags (spooled_members settings path body ms) ms p real))
    where
      if_same : (b : Bool) (is : List TraversalItem) → (if b then is else is) ≡ is
      if_same true is = refl
      if_same false is = refl

  emit_archive_members_lem :
      (path : List String) (body : ArchiveBody) (p : Pipe)
      → Offered settings recording
          ((archive_items settings) path body)
          p
          (emit_archive_members settings recording path body p)
  unfolding emit_archive_members
  emit_archive_members_lem path body p =
      tagged (tags_for_path path settings) (enumerate_archive_members (name_chars path) body)
    where
      matching : List String → List String
      matching = retain (member_matches settings)

      tagged :
          (tags members : Option (List String))
          → Offered settings recording
              (elim tags [
                | none ↦ []
                | some ts ↦ elim members [
                  | none ↦ []
                  | some ms ↦
                      (member_items settings) path ts
                        (spooled_members settings path body (matching ms))
                        (matching ms)
                ]
              ])
              p
              (elim tags [
                | none ↦ (true, p)
                | some ts ↦ elim members [
                  | none ↦ (true, p)
                  | some ms ↦ emit_matching settings recording path ts body (matching ms) p
                ]
              ])
      tagged none members = nothing_lem p
      tagged (some ts) none = nothing_lem p
      tagged (some ts) (some ms) = emit_matching_lem path ts body (matching ms) p

  file_items-Offered :
      (path tags : List String) (p : Pipe)
      → Offered settings recording (item_of path tags none none ∷ []) p (
          if settings.dry_run
          then (true, propose settings recording (display path) p)
          else sent_then (send (item_of path tags none none) p) (λ q. (true, q)))
  file_items-Offered path tags p = offer_lem settings recording (item_of path tags none none) p

  pub visit_file_lem :
      (path : List String) (body : ArchiveBody) (p : Pipe)
      → Offered settings recording
          ((items_of settings) path body)
          p
          (visit_file settings recording path body p)
  unfolding visit_file items_of
  visit_file_lem path body p =
      if_lem (extension_matches (path_extension path) settings.extensions)
        ((file_items settings) path)
        (if is_archive_path (name_chars path) then (archive_items settings) path body else []) p _ _
        (λ _. matched (tags_for_path path settings))
        (λ _.
          if_lem (is_archive_path (name_chars path)) ((archive_items settings) path body) [] p _ _
            (λ _. emit_archive_members_lem path body p) (λ _. nothing_lem p))
    where
      matched :
          (o : Option (List String))
          → Offered settings recording
              (elim o [ none ↦ [] | some tags ↦ item_of path tags none none ∷ [] ])
              p
              (elim o [
                | none ↦ (true, p)
                | some tags ↦
                    if settings.dry_run
                    then (true, propose settings recording (display path) p)
                    else sent_then (send (item_of path tags none none) p) (λ q. (true, q))
              ])
      matched none = nothing_lem p
      matched (some tags) = file_items-Offered path tags p
