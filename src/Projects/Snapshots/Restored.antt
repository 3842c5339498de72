-- ===== src/Projects/Snapshots/Restored.antt =====
-- What restoring a snapshot of src/project/project.service.ts leaves behind.
use Prim.Native.String.{◌++◌ as concat}
use starsyncbackend.Prelude.{
  subst, ℕ, ◌+◌, String, Bool, true, false, ◌&&◌, ◌==◌, if◌then◌else◌, Option, none, some, ◌≡◌, ◌≢◌,
  refl, sym, ap, ◌∙◌, inl, inr, arith,
}
use starsyncbackend.Effect.{ok, Result-cases}
use starsyncbackend.Database.Rows.{only_row}
use starsyncbackend.Entities.{Project}
use starsyncbackend.RedisService.{get_content_key, get-set_ne, get-set_self}
use starsyncbackend.Permission.{can_view, can_edit}
use starsyncbackend.Permission.Roles.{get_user_role-reads}
use starsyncbackend.Projects.Snapshots.{
  SnapshotServices, SnapshotDb, Row, content_of, new_snapshot, create_snapshot, restore_snapshot,
  description_or_null,
}

module _ (v : SnapshotServices) where
  can_edit-reads :
      (user project : String) (s : SnapshotDb v)
      → (can_edit v.others user project s.others).1 ≡ s.others
  unfolding can_edit
  can_edit-reads user project s = ground (arith, get_user_role-reads v.others user project s.others)

  can_view-reads :
      (user project : String) (s : SnapshotDb v)
      → (can_view v.others user project s.others).1 ≡ s.others
  unfolding can_view
  can_view-reads user project s = ground (arith, get_user_role-reads v.others user project s.others)

  -- The row that creating a snapshot adds, where it returns.
  record Created (user project : String) (row : Row v) (s s' : SnapshotDb v) : Type 0 where
    description : Option String
    table : v.snapshots.Table
    added :
        v.snapshots.insert
          (new_snapshot v user project (content_of v project s.store) description)
          s.snapshots
        ≡ ok (table, row)
    after : s'.snapshots ≡ table

  create_snapshot-Created :
      (user project : String) (description : Option String) (s : SnapshotDb v) (row : Row v)
      → (create_snapshot v user project description s).0 ≡ ok row
      → Created user project row s (create_snapshot v user project description s).1
  unfolding create_snapshot
  create_snapshot-Created user project description s row done =
      let reads = can_view-reads user project s in
      elim (Result-cases (can_view v.others user project s.others).0) [
        | inr (x, e1) ↦ absurd (ground (arith, e1, done, reads))
        | inl (false, e1) ↦ absurd (ground (arith, e1, done, reads))
        | inl (true, e1) ↦
            elim (Result-cases
              (v.others.projects.find_one (λ p. p.id == project) s.others.projects)) [
                | inr (x, e2) ↦ absurd (ground (arith, e1, e2, done, reads))
                | inl (none, e2) ↦ absurd (ground (arith, e1, e2, done, reads))
                | inl (some p, e2) ↦ inserted p e1 e2
              ]
      ]
    where
      inserted :
          (p : Project)
          → (can_view v.others user project s.others).0 ≡ ok true
          → v.others.projects.find_one (λ p. p.id == project) s.others.projects ≡ ok (some p)
          → Created user project row s (create_snapshot v user project description s).1
      inserted p e1 e2 =
          let reads = can_view-reads user project s in
          let text = description_or_null description in
          let saved_text = content_of v project s.store in
          elim (Result-cases
            (v.snapshots.insert (new_snapshot v user project saved_text text) s.snapshots)) [
              | inr (x, e3) ↦ absurd (ground (arith, e1, e2, e3, done, reads))
              | inl ((t, new_row), e3) ↦
                  let same : new_row ≡ row = ground (arith, e1, e2, e3, done, reads) in
                  record {
                    description = text;
                    table = t;
                    added = e3 ∙ ap (λ x. ok (t, x)) same;
                    after = ground (arith, e1, e2, e3, reads);
                  }
            ]

  -- A project whose content is that of a snapshot again, and the row that keeps the one it had.
  pub record Restored (user project : String) (saved_text : v.redis.Text) (s s' : SnapshotDb v)
      : Type 0 where
    pub permitted : (can_edit v.others user project s.others).0 ≡ ok true
    pub content : v.redis.get (get_content_key project) s'.store ≡ some saved_text
    pub elsewhere :
        (k : String) → get_content_key project ≢ k → v.redis.get k s'.store ≡ v.redis.get k s.store
    pub backup : Row v
    pub kept :
        (backup.project_id ≡ project)
        × (backup.created_by ≡ user)
        × (backup.snapshot_data ≡ content_of v project s.store)
    pub added :
        (p : Row v → Bool)
        → v.snapshots.count p s'.snapshots
          ≡ (if p backup then 1 else 0) + v.snapshots.count p s.snapshots
    pub others : s'.others ≡ s.others

  -- The snapshot that was restored, where the call returned.
  record Found (now user project id : String) (s s' : SnapshotDb v) : Type 0 where
    row : Row v
    is_row :
        v.snapshots.find_one (λ x. x.id == id && x.project_id == project) s.snapshots
        ≡ ok (some row)
    is_restored : Restored user project row.snapshot_data s s'

  module _ (now user project id : String) (s : SnapshotDb v) where
    abbrev backup_row : String → ℕ → Row v
    backup_row =
        new_snapshot v user project (content_of v project s.store)
          (some (concat "Auto-backup before restore (" (concat now ")")))

    found_Restored :
        (row w : Row v) (t : v.snapshots.Table)
        → (can_edit v.others user project s.others).0 ≡ ok true
        → v.snapshots.find_one (λ x. x.id == id && x.project_id == project) s.snapshots
          ≡ ok (some row)
        → v.snapshots.insert backup_row s.snapshots ≡ ok (t, w)
        → Restored user project row.snapshot_data s (restore_snapshot v now user project id s).1
    unfolding restore_snapshot
    found_Restored row w t e1 e2 e3 =
        let reads = can_edit-reads user project s in
        let run : (restore_snapshot v now user project id s).1 ≡ record s {
          snapshots = t;
          store = v.redis.set (get_content_key project) row.snapshot_data s.store;
        } =
          ground (arith, e1, e2, e3, reads) in
        let (new_id, at, made) = v.snapshots.insert-row backup_row s.snapshots t w e3 in
        rw run (record {
          permitted = e1;
          content = get-set_self v.redis (get_content_key project) row.snapshot_data s.store;
          elsewhere =
              λ k ne. get-set_ne v.redis (get_content_key project) k row.snapshot_data s.store ne;
          backup = w;
          kept =
              subst
                (λ (b : Row v).
                  (b.project_id ≡ project)
                  × (b.created_by ≡ user)
                  × (b.snapshot_data ≡ content_of v project s.store))
                (sym made) (refl, refl, refl);
          added = λ p. v.snapshots.count-insert backup_row p s.snapshots t w e3;
          others = refl;
        })

    restore_snapshot-Found :
        (restore_snapshot v now user project id s).0 ≡ ok tt
        → Found now user project id s (restore_snapshot v now user project id s).1
    unfolding restore_snapshot
    restore_snapshot-Found done =
        let reads = can_edit-reads user project s in
        elim (Result-cases (can_edit v.others user project s.others).0) [
          | inr (x, e1) ↦ absurd (ground (arith, e1, done, reads))
          | inl (false, e1) ↦ absurd (ground (arith, e1, done, reads))
          | inl (true, e1) ↦
              elim (Result-cases
                (v.snapshots.find_one (λ x. x.id == id && x.project_id == project) s.snapshots)) [
                  | inr (x, e2) ↦ absurd (ground (arith, e1, e2, done, reads))
                  | inl (none, e2) ↦ absurd (ground (arith, e1, e2, done, reads))
                  | inl (some row, e2) ↦
                      elim (Result-cases (v.snapshots.insert backup_row s.snapshots)) [
                        | inr (x, e3) ↦ absurd (ground (arith, e1, e2, e3, done, reads))
                        | inl ((t, w), e3) ↦ record {
                          row = row;
                          is_row = e2;
                          is_restored = found_Restored row w t e1 e2 e3;
                        }
                      ]
                ]
        ]

  -- When creating a snapshot of a project returns a row whose id no snapshot had, and later,
  -- whatever else has changed but the table of the snapshots, restoring that id returns: the user
  -- may edit the project; its content is what it was when the snapshot was created, or the text of
  -- the empty array where it had none or an empty text; nothing else in Redis and no other table
  -- has changed; and there is one snapshot more, of this project and by this user, with the content
  -- that the project had just before.
  pub restore_created :
      (creator user project now : String) (description : Option String) (s s1 : SnapshotDb v)
      (row : Row v)
      → (create_snapshot v creator project description s).0 ≡ ok row
      → v.snapshots.count (λ x. x.id == row.id) s.snapshots ≡ 0
      → s1.snapshots ≡ (create_snapshot v creator project description s).1.snapshots
      → (restore_snapshot v now user project row.id s1).0 ≡ ok tt
      → Restored user project
          (content_of v project s.store)
          s1
          (restore_snapshot v now user project row.id s1).1
  restore_created creator user project now description s s1 row created fresh same_table done =
      let c = create_snapshot-Created creator project description s row created in
      let found = restore_snapshot-Found now user project row.id s1 done in
      let saved_text = content_of v project s.store in
      let f = new_snapshot v creator project saved_text c.description in
      let chosen : Row v → Bool = λ x. x.id == row.id && x.project_id == project in
      let (new_id, at, made) = v.snapshots.insert-row f s.snapshots c.table row c.added in
      let none_chosen : v.snapshots.count chosen s.snapshots ≡ 0 = ground (
        arith,
        fresh,
        v.snapshots.count_mono chosen (λ x. x.id == row.id) s.snapshots (λ x h. ground (arith, h)),
      ) in
      let is_same : v.same found.row.snapshot_data saved_text ≡ true =
        only_row v.snapshots f chosen (λ x. v.same x.snapshot_data saved_text) s.snapshots c.table
          row found.row none_chosen c.added
          (ap (λ (x : Row v). v.same x.snapshot_data saved_text) made ∙ v.same_refl saved_text)
          (ap (λ t. v.snapshots.find_one chosen t) (sym (same_table ∙ c.after)) ∙ found.is_row) in
      subst
        (λ text. Restored user project text s1 (restore_snapshot v now user project row.id s1).1)
        (v.same_sound found.row.snapshot_data saved_text is_same) found.is_restored
