-- ===== src/SyncGateway/Notes/Interleaved.antt =====
-- Two calls of `processMessage` of src/socket/sync.gateway.ts whose awaits interleave.
use starsyncbackend.Prelude.{
  String, Bool, true, false, List, [], ◌∷◌, ◌++◌, ◌≡◌, ◌∙◌, ap, arith, get_or, refl, Option,
}
use starsyncbackend.RedisService.{
  RedisClient, ArrayText, items, get_content_key, get_history_key, stored_at-set, pushed,
}
use starsyncbackend.SyncGateway.Notes.{
  Note, HistoryItem, apply_actions, content_of, history_of, written, Task, done, begun, history_set,
  history_read, content_read, step, Pair, run_both,
}
use starsyncbackend.SyncGateway.Notes.Stored.{
  content, history, with_history, with_content, content_kept, history_kept,
}

module _ (c : RedisClient) (notes_text : ArrayText c Note)
    (history_text : ArrayText c HistoryItem) where
  -- How far two calls have come, and the store.
  abbrev pub pair :
      Task c notes_text history_text
      → Task c notes_text history_text
      → c.Store
      → Pair c notes_text history_text
  pair t u s = record { first = t; second = u; store = s }

  -- Both calls before anything has run.
  abbrev pub start : c.Store → Pair c notes_text history_text
  start s = pair begun begun s

  module _ (project : String) (first second : HistoryItem) (s : c.Store) (hs : List HistoryItem)
      (ns : List Note) where
    -- The store after two calls in the order of a schedule.
    abbrev pub after : List Bool → c.Store
    after turns = (run_both c notes_text history_text project first second turns (start s)).store

    -- The first call is at its last part when the second begins.
    abbrev pub late : List Bool
    late = true ∷ true ∷ true ∷ false ∷ false ∷ false ∷ true ∷ false ∷ []

    -- The two calls take turns.
    abbrev pub in_turns : List Bool
    in_turns = true ∷ false ∷ true ∷ false ∷ true ∷ false ∷ true ∷ false ∷ []

    abbrev wrote : HistoryItem → c.Store → c.Store
    wrote item t =
        with_content c notes_text history_text project
          (notes_text.write (apply_actions item.notes ns)) t

    two_contents :
        (t : c.Store)
        → (content c notes_text history_text project (wrote second (wrote first t))
            ≡ items (apply_actions second.notes ns))
          × (history c notes_text history_text project (wrote second (wrote first t))
              ≡ history c notes_text history_text project t)
    two_contents t = (
      stored_at-set c notes_text (get_content_key project) (apply_actions second.notes ns)
          (wrote first t),
      ap (λ o. history_text.read (get_or o c.empty_array))
          (history_kept c notes_text history_text project
              (notes_text.write (apply_actions second.notes ns)) (wrote first t)
            ∙ history_kept c notes_text history_text project
                (notes_text.write (apply_actions first.notes ns)) t),
    )

    abbrev run : List Bool → Pair c notes_text history_text → Pair c notes_text history_text
    run = run_both c notes_text history_text project first second

    -- A part of the first call, or of the second.
    run_first :
        (turns : List Bool) (t t' u : Task c notes_text history_text) (s s' : c.Store)
        → step c notes_text history_text project first t s ≡ (t', s')
        → run (true ∷ turns) (pair t u s) ≡ run turns (pair t' u s')
    unfolding run_both
    run_first turns t t' u s s' e =
        ap (λ (x : Task c notes_text history_text × c.Store). run turns (pair x.0 u x.1)) e

    run_second :
        (turns : List Bool) (t u u' : Task c notes_text history_text) (s s' : c.Store)
        → step c notes_text history_text project second u s ≡ (u', s')
        → run (false ∷ turns) (pair t u s) ≡ run turns (pair t u' s')
    unfolding run_both
    run_second turns t u u' s s' e =
        ap (λ (x : Task c notes_text history_text × c.Store). run turns (pair t x.0 x.1)) e

    -- The parts of a call that write.
    step-history :
        (item : HistoryItem) (answer : Option c.Text) (xs : List HistoryItem) (t : c.Store)
        → history_text.read (get_or answer c.empty_array) ≡ items xs
        → step c notes_text history_text project item (history_read answer) t
          ≡ (history_set, with_history c notes_text history_text project (xs ++ item ∷ []) t)
    unfolding step pushed
    step-history item answer xs t e = ground (arith, e)

    step-content :
        (item : HistoryItem) (answer : Option c.Text) (t : c.Store)
        → notes_text.read (get_or answer c.empty_array) ≡ items ns
        → step c notes_text history_text project item (content_read answer) t ≡ (done, wrote item t)
    unfolding step written
    step-content item answer t e = ground (arith, e)

    begin-history :
        (item : HistoryItem) (t : c.Store)
        → step c notes_text history_text project item begun t
          ≡ (history_read (c.get (get_history_key project) t), t)
    unfolding step
    begin-history item t = refl

    begin-content :
        (item : HistoryItem) (t : c.Store)
        → step c notes_text history_text project item history_set t
          ≡ (content_read (c.get (get_content_key project) t), t)
    unfolding step
    begin-content item t = refl

    -- Writing histories leaves the content.
    content_after :
        (v : c.Text) (t : c.Store)
        → content c notes_text history_text project t ≡ items ns
        → content c notes_text history_text project (c.set (get_history_key project) v t) ≡ items ns
    content_after v t e =
        ap (λ o. notes_text.read (get_or o c.empty_array))
          (content_kept c notes_text history_text project v t)
        ∙ e

    run-nil : (t u : Task c notes_text history_text) (s : c.Store) → (run [] (pair t u s)).store ≡ s
    unfolding run_both
    run-nil t u s = refl

    after-late :
        history c notes_text history_text project s ≡ items hs
        → content c notes_text history_text project s ≡ items ns
        → after late
          ≡ wrote second (
              wrote first (
                with_history c notes_text history_text project
                  ((hs ++ first ∷ []) ++ second ∷ [])
                  (with_history c notes_text history_text project (hs ++ first ∷ []) s)))
    after-late eh en =
        let s1 = with_history c notes_text history_text project (hs ++ first ∷ []) s in
        let s2 =
          with_history c notes_text history_text project ((hs ++ first ∷ []) ++ second ∷ []) s1 in
        let h0 = c.get (get_history_key project) s in
        let h1 = c.get (get_history_key project) s1 in
        let c1 = c.get (get_content_key project) s1 in
        let c2 = c.get (get_content_key project) s2 in
        let e1 = content_after (history_text.write (hs ++ first ∷ [])) s en in
        let e2 = content_after (history_text.write ((hs ++ first ∷ []) ++ second ∷ [])) s1 e1 in
        let grown = stored_at-set c history_text (get_history_key project) (hs ++ first ∷ []) s in
        ap (λ (p : Pair c notes_text history_text). p.store)
          (run_first _ begun (history_read h0) begun s s (begin-history first s)
            ∙ run_first _ (history_read h0) history_set begun s s1 (step-history first h0 hs s eh)
            ∙ run_first _ history_set (content_read c1) begun s1 s1 (begin-content first s1)
            ∙ run_second _ (content_read c1) begun (history_read h1) s1 s1 (begin-history second s1)
            ∙ run_second _ (content_read c1) (history_read h1) history_set s1 s2
                (step-history second h1 (hs ++ first ∷ []) s1 grown)
            ∙ run_second _ (content_read c1) history_set (content_read c2) s2 s2
                (begin-content second s2)
            ∙ run_first _ (content_read c1) done (content_read c2) s2 (wrote first s2)
                (step-content first c1 s2 e1)
            ∙ run_second _ done (content_read c2) done (wrote first s2)
                (wrote second (wrote first s2)) (step-content second c2 (wrote first s2) e2))
        ∙ run-nil done done (wrote second (wrote first s2))

    after-in_turns :
        history c notes_text history_text project s ≡ items hs
        → content c notes_text history_text project s ≡ items ns
        → after in_turns
          ≡ wrote second (
              wrote first (
                with_history c notes_text history_text project
                  (hs ++ second ∷ [])
                  (with_history c notes_text history_text project (hs ++ first ∷ []) s)))
    after-in_turns eh en =
        let s1 = with_history c notes_text history_text project (hs ++ first ∷ []) s in
        let s2 = with_history c notes_text history_text project (hs ++ second ∷ []) s1 in
        let h0 = c.get (get_history_key project) s in
        let c2 = c.get (get_content_key project) s2 in
        let e2 =
          content_after (history_text.write (hs ++ second ∷ [])) s1
            (content_after (history_text.write (hs ++ first ∷ [])) s en) in
        ap (λ (p : Pair c notes_text history_text). p.store)
          (run_first _ begun (history_read h0) begun s s (begin-history first s)
            ∙ run_second _ (history_read h0) begun (history_read h0) s s (begin-history second s)
            ∙ run_first _ (history_read h0) history_set (history_read h0) s s1
                (step-history first h0 hs s eh)
            ∙ run_second _ history_set (history_read h0) history_set s1 s2
                (step-history second h0 hs s1 eh)
            ∙ run_first _ history_set (content_read c2) history_set s2 s2 (begin-content first s2)
            ∙ run_second _ (content_read c2) history_set (content_read c2) s2 s2
                (begin-content second s2)
            ∙ run_first _ (content_read c2) done (content_read c2) s2 (wrote first s2)
                (step-content first c2 s2 e2)
            ∙ run_second _ done (content_read c2) done (wrote first s2)
                (wrote second (wrote first s2)) (step-content second c2 (wrote first s2) e2))
        ∙ run-nil done done (wrote second (wrote first s2))

    -- Two sync messages to one project whose history and content are arrays. Where the second runs
    -- from its start to its last await while the first is at its last, and then the first writes,
    -- and then the second: the content is what the second message alone makes of the first content,
    -- so the first message's actions are lost, though the history has both messages. Where the two
    -- take turns, await by await, the same holds of the content, and the history has lost the first
    -- message as well.
    pub lost_update :
        history_of c notes_text history_text project s ≡ items hs
        → content_of c notes_text history_text project s ≡ items ns
        → (content_of c notes_text history_text project (after late)
            ≡ items (apply_actions second.notes ns))
          × (history_of c notes_text history_text project (after late)
              ≡ items ((hs ++ first ∷ []) ++ second ∷ []))
          × (content_of c notes_text history_text project (after in_turns)
              ≡ items (apply_actions second.notes ns))
          × (history_of c notes_text history_text project (after in_turns)
              ≡ items (hs ++ second ∷ []))
    lost_update eh en =
        let s1 = with_history c notes_text history_text project (hs ++ first ∷ []) s in
        let s2 =
          with_history c notes_text history_text project ((hs ++ first ∷ []) ++ second ∷ []) s1 in
        let t2 = with_history c notes_text history_text project (hs ++ second ∷ []) s1 in
        let (lc, lh) = two_contents s2 in
        let (tc, th) = two_contents t2 in
        (
          ap (content c notes_text history_text project) (after-late eh en) ∙ lc,
          ap (history c notes_text history_text project) (after-late eh en)
              ∙ lh
              ∙ stored_at-set c history_text (get_history_key project)
                  ((hs ++ first ∷ []) ++ second ∷ []) s1,
          ap (content c notes_text history_text project) (after-in_turns eh en) ∙ tc,
          ap (history c notes_text history_text project) (after-in_turns eh en)
              ∙ th
              ∙ stored_at-set c history_text (get_history_key project) (hs ++ second ∷ []) s1,
        )
