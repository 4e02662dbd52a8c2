-- ===== src/Pwr/Bowl/Disk/Moves.antt =====
-- What `copy` and `move` of pwr/bowl/bowl_overlay.go do to the contents of the files.
use wharf.Base.{Option, none, some, ◌≡◌, ◌≢◌, ◌∙◌, refl, sym, []}
use wharf.Pwr.Bowl.Disk.{
  Place, OsError, not_exist, other_error, BowlError, os_failed, Step, ◌>>◌, after, os, os_error,
  MkdirBehavior, never, if_needed, FileSystem, IsFileSystem, copy_bytes, open_and_copy, copy,
  mkdir_by, remove_if_exists, rename_or_copy, move,
}

-- If the step reports no error, the disk behind it has the property.
abbrev pub Ok : {D : Type 0} → Step D → D → (D → Type 0) → Type 0
Ok m d P = (m d).0 ≡ none → P (m d).1

module _ {D : Type 0} (P Q : D → Type 0) where
  pub after-Ok :
      (k : Step D) (e : Option BowlError) (d : D)
      → (e ≡ none → Q d)
      → ((d' : D) → Q d' → Ok k d' P)
      → (after e k d).0 ≡ none
      → P (after e k d).1
  after-Ok k none d first next h = next d (first refl) h
  after-Ok k (some e) d first next h = absurd cc

  pub seq-Ok : (m k : Step D) (d : D) → Ok m d Q → ((d' : D) → Q d' → Ok k d' P) → Ok (m >> k) d P
  seq-Ok m k d first next = after-Ok k (m d).0 (m d).1 first next

module _ {D A : Type 0} (P : D → Type 0) where
  pub found-Ok :
      (e : BowlError) (f : A → Step D) (d : D) (o : Option A)
      → ((a : A) → o ≡ some a → Ok (f a) d P)
      → Ok (λ (d : D). elim o [ none ↦ (some e, d) | some a ↦ f a d ]) d P
  found-Ok e f d none next h = absurd cc
  found-Ok e f d (some a) next h = next a refl h

pub os_error-none : (e : Option OsError) → os_error e ≡ none → e ≡ none
os_error-none none h = refl
os_error-none (some e) h = absurd cc

module _ {D : Type 0} (fs : FileSystem D) where
  -- Behind a copy: the new file holds what the old one held, and the other files are as before.
  pub record Copied (old new : Place) (d d' : D) : Type 0 where
    pub same : fs.read new d' ≡ fs.read old d
    pub keeps : (q : Place) → q ≢ new → fs.read q d' ≡ fs.read q d

  -- Behind a move, the old file may be gone.
  pub record Moved (old new : Place) (d d' : D) : Type 0 where
    pub same : fs.read new d' ≡ fs.read old d
    pub keeps : (q : Place) → q ≢ old → q ≢ new → fs.read q d' ≡ fs.read q d

module _ {D : Type 0} (fs : FileSystem D) (law : IsFileSystem fs) (old new : Place)
    (apart : old ≢ new) where
  copy_bytes-Copied :
      (d : D) → fs.read new d ≡ some [] → Ok (copy_bytes fs old new) d (Copied fs old new d)
  unfolding copy_bytes
  copy_bytes-Copied d empty =
      found-Ok (Copied fs old new d) (os_failed other_error) (λ bytes. os (fs.fill new bytes)) d
        (fs.read old d)
        (λ bytes e h. record {
          same =
              law.fill_writes new bytes d (os_error-none (fs.fill new bytes d).0 h) empty ∙ sym e;
          keeps = λ q ne. law.fill_keeps new q bytes d ne;
        })

  Copied-trans :
      (d d' d'' : D)
      → ((q : Place) → q ≢ new → fs.read q d' ≡ fs.read q d)
      → Copied fs old new d' d''
      → Copied fs old new d d''
  Copied-trans d d' d'' before v = record {
    same = v.same ∙ before old apart;
    keeps = λ q ne. v.keeps q ne ∙ before q ne;
  }

  open_and_copy-Copied : (d : D) → Ok (open_and_copy fs old new) d (Copied fs old new d)
  unfolding open_and_copy
  open_and_copy-Copied d =
      found-Ok (Copied fs old new d) (os_failed not_exist)
        (λ bytes. os (fs.create new) >> copy_bytes fs old new) d (fs.read old d)
        (λ bytes e.
          seq-Ok (Copied fs old new d)
            (λ d'.
              (fs.read new d' ≡ some []) × ((q : Place) → q ≢ new → fs.read q d' ≡ fs.read q d))
            (os (fs.create new)) (copy_bytes fs old new) d
            (λ h. (
              law.create_empties new d (os_error-none (fs.create new d).0 h),
              λ q ne. law.create_keeps new q d ne,
            ))
            (λ d' v h.
              Copied-trans d d' (copy_bytes fs old new d').1 v.1 (copy_bytes-Copied d' v.0 h)))

  mkdir_by-keeps :
      (b : MkdirBehavior) (d : D) (q : Place) → fs.read q (mkdir_by fs b new d).1 ≡ fs.read q d
  mkdir_by-keeps never d q = refl
  mkdir_by-keeps if_needed d q = law.mkdir_parents_keeps new q d

  -- A copy that reports no error: the new file has the old one's content, and every other file is
  -- as it was, the old one too.
  pub copy-Copied : (b : MkdirBehavior) (d : D) → Ok (copy fs old new b) d (Copied fs old new d)
  unfolding copy
  copy-Copied b d =
      seq-Ok (Copied fs old new d) (λ d'. (q : Place) → q ≢ new → fs.read q d' ≡ fs.read q d)
        (mkdir_by fs b new) (open_and_copy fs old new) d (λ h q ne. mkdir_by-keeps b d q)
        (λ d' v h. Copied-trans d d' (open_and_copy fs old new d').1 v (open_and_copy-Copied d' h))

  Moved-trans :
      (d d' d'' : D)
      → ((q : Place) → q ≢ new → fs.read q d' ≡ fs.read q d)
      → Moved fs old new d' d''
      → Moved fs old new d d''
  Moved-trans d d' d'' before v = record {
    same = v.same ∙ before old apart;
    keeps = λ q ne ne'. v.keeps q ne ne' ∙ before q ne';
  }

  copy_remove-Moved :
      (d : D) → Ok (copy fs old new never >> os (fs.remove old)) d (Moved fs old new d)
  copy_remove-Moved d =
      seq-Ok (Moved fs old new d) (Copied fs old new d) (copy fs old new never) (os (fs.remove old))
        d (copy-Copied never d)
        (λ d' v h. record {
          same = law.remove_keeps old new d' (λ e. apart (sym e)) ∙ v.same;
          keeps = λ q ne ne'. law.remove_keeps old q d' ne ∙ v.keeps q ne';
        })

  renamed-Moved :
      (d : D) (e : Option OsError)
      → (fs.rename old new d).0 ≡ e
      → Ok
          (λ (d : D). elim e [
            | none ↦ (none, (fs.rename old new d).1)
            | some e ↦ (copy fs old new never >> os (fs.remove old)) (fs.rename old new d).1
          ])
          d
          (Moved fs old new d)
  renamed-Moved d none eq h = record {
    same = law.rename_moves old new d eq;
    keeps = λ q ne ne'. law.rename_keeps old new q d ne ne';
  }
  renamed-Moved d (some x) eq h =
      let d' = (fs.rename old new d).1 in
      Moved-trans d d' ((copy fs old new never >> os (fs.remove old)) d').1
        (λ q ne. law.rename_fails old new q d x eq) (copy_remove-Moved d' h)

  rename_or_copy-Moved : (d : D) → Ok (rename_or_copy fs old new) d (Moved fs old new d)
  unfolding rename_or_copy
  rename_or_copy-Moved d = renamed-Moved d (fs.rename old new d).0 refl

  -- A move that reports no error, by a rename or, where that fails, by a copy: the new file has the
  -- old one's content, and every file but the two is as it was.
  pub move-Moved : (d : D) → Ok (move fs old new) d (Moved fs old new d)
  unfolding move remove_if_exists
  move-Moved d =
      let kept = λ (d' : D). (q : Place) → q ≢ new → fs.read q d' ≡ fs.read q d in
      seq-Ok (Moved fs old new d) kept (remove_if_exists fs new >> os (fs.mkdir_parents new))
        (rename_or_copy fs old new) d
        (seq-Ok kept kept (remove_if_exists fs new) (os (fs.mkdir_parents new)) d
          (λ h q ne. law.remove_keeps new q d ne)
          (λ d' v h q ne. law.mkdir_parents_keeps new q d' ∙ v q ne))
        (λ d' v h. Moved-trans d d' (rename_or_copy fs old new d').1 v (rename_or_copy-Moved d' h))
