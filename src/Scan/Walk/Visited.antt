-- ===== src/Scan/Walk/Visited.antt =====
-- core/src/scan/scanner.rs: which files and archive members the traversal offers, in which order.
use read_flow.Scan.Walk.Files.{visit_file_lem, nothing_lem}
use read_flow.Scan.Walk.Expected.{
  leaves-hidden, sighted-append, leaves_in, leaves_in-hidden, in_sight, all_items, items_of, leaves,
  expected,
}
use read_flow.Scan.Walk.Offers.{
  offers-dry, offers-Took, Took, offers-append, continue_if_lem, Offered, offers,
}
use read_flow.Scan.Walk.{
  file_discovered, stage1_traversal, visit_entries, visit_node, done, locked, broken, entry,
  is_hidden, unreadable, visit_file, Entries, is_scm_root, Pipe, folder, regular, Recording, Node,
  ScanSettings,
}
use read_flow.Prelude.{
  take, map, subst, refl, ◌≡◌, List, [], ◌∷◌, ◌++◌, append-nil, true, false, sym, ap, ◌∙◌, String,
  Bool-cases, inl, inr, retain,
}

module _ (settings : ScanSettings) (recording : Recording) where
  -- The traversal below a path in sight offers what is (expected settings) there.
  mutual
    unfolding leaves visit_node all_items

    visit_node_lem :
        (path : List String) (node : Node) (p : Pipe)
        → Offered settings recording
            ((all_items settings) (retain in_sight (leaves path false false node)))
            p
            (visit_node settings recording path node p)
    visit_node_lem path broken p = nothing_lem settings recording p
    visit_node_lem path (regular body) p =
        subst (λ is. Offered settings recording is p (visit_file settings recording path body p))
          (sym (append-nil ((items_of settings) path body)))
          (visit_file_lem settings recording path body p)
    visit_node_lem path (folder es) p = elim (Bool-cases (is_scm_root es)) [
      | inl scm ↦
          rw (scm, (leaves_in-hidden settings) path false true es refl)
            (nothing_lem settings recording p)
      | inr free ↦ rw free (visit_entries_lem path es p, λ refused. absurd (cc refused))
    ]
    visit_node_lem path locked p = nothing_lem settings recording p

    visit_entries_lem :
        (path : List String) (es : Entries) (p : Pipe)
        → visit_entries settings recording path es p
          ≡ offers settings recording
              ((all_items settings) (retain in_sight (leaves_in path false false es)))
              p
    visit_entries_lem path done p = (nothing_lem settings recording p).0
    visit_entries_lem path (unreadable es) p = visit_entries_lem path es p
    visit_entries_lem path (entry name node es) p = elim (Bool-cases (is_hidden name)) [
      | inl hidden ↦ rw hidden (
          visit_entries_lem path es p
          ∙ ap (λ is. offers settings recording is p)
              (sym (
                (sighted-append settings) (leaves (path ++ name ∷ []) true false node)
                  (leaves_in path false false es)
                ∙ ap
                    (λ ls.
                      (all_items settings) ls
                      ++ (all_items settings) (retain in_sight (leaves_in path false false es)))
                    ((leaves-hidden settings) (path ++ name ∷ []) true false node refl))))
      | inr shown ↦ rw shown (
          continue_if_lem settings recording
            ((all_items settings) (retain in_sight (leaves (path ++ name ∷ []) false false node)))
            ((all_items settings) (retain in_sight (leaves_in path false false es))) p
            (visit_node settings recording (path ++ name ∷ []) node p)
            (visit_entries settings recording path es) (visit_node_lem (path ++ name ∷ []) node p)
            (λ q. visit_entries_lem path es q)
          ∙ sym (
              offers-append settings recording
                ((all_items settings)
                  (retain in_sight (leaves (path ++ name ∷ []) false false node)))
                ((all_items settings) (retain in_sight (leaves_in path false false es))) p)
          ∙ ap (λ is. offers settings recording is p)
              (sym (
                (sighted-append settings) (leaves (path ++ name ∷ []) false false node)
                  (leaves_in path false false es))))
    ]

  -- A scan of a directory sends, in order and as far as the receiver takes them, one item for each
  -- file and archive member that is (expected settings), announces each item that is taken, and writes nothing
  -- into the store. Expected are the files whose names below the root are not hidden, that stand
  -- under no directory with a `.git` or `.hg` directory, and that no settings ignore: those with one
  -- of the extensions, and the members of the other archives that are not hidden and have one.
  pub stage1_traversal-expected :
      (root : List String) (es : Entries) (p : Pipe)
      → settings.dry_run ≡ false
      → Took settings recording
          (take p.room ((expected settings) root (folder es)))
          p
          (stage1_traversal settings recording root (folder es) p)
  unfolding stage1_traversal expected
  stage1_traversal-expected root es p real =
      subst (Took settings recording (take p.room ((expected settings) root (folder es))) p)
        (sym (visit_node_lem root (folder es) p).0)
        (offers-Took settings recording ((expected settings) root (folder es)) p.room p real refl)

  -- A dry run of the same scan sends nothing and announces every (expected settings) item.
  pub stage1_traversal-dry :
      (root : List String) (es : Entries) (p : Pipe)
      → settings.dry_run ≡ true
      → ((stage1_traversal settings recording root (folder es) p).sent ≡ p.sent)
        × ((stage1_traversal settings recording root (folder es) p).progress
            ≡ p.progress ++ map (λ _. file_discovered) ((expected settings) root (folder es)))
  unfolding stage1_traversal expected
  stage1_traversal-dry root es p dry =
      rw ((visit_node_lem root (folder es) p).0)
        (offers-dry settings recording ((expected settings) root (folder es)) p dry)
