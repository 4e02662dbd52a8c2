-- ===== src/Bsdiff.antt =====
-- bsdiff/patch.go and bsdiff/adder_reader.go: a patch adds bytes to what the old file has, and copies
-- others. The old file is its bytes, as the cache of bsdiff/lrufile reads them, whose Seek refuses an
-- offset outside of the file; an int64 offset is an integer, which a seek can make negative.
pub mod Spec
mod Tests
use wharf.Base.{
  ℕ, suc, ◌+◌, ◌-◌, ◌%◌, ◌^◌, Bool, true, false, Option, none, some, List, [], ◌∷◌, ◌++◌, length,
  drop, ltb, ◌==◌, if◌then◌else◌,
}
use wharf.Wsync.Apply.{Output, Copied, copy}

pub data ℤ : Type 0 where
  pos : ℕ → ℤ
  negsuc : ℕ → ℤ

infixl 60 ◌+ℤ◌
unfoldable pub ◌+ℤ◌ : ℤ → ℤ → ℤ
pos a +ℤ pos b = pos (a + b)
pos a +ℤ negsuc b = if ltb b a then pos (a - suc b) else negsuc (b - a)
negsuc a +ℤ pos b = if ltb a b then pos (b - suc a) else negsuc (a - b)
negsuc a +ℤ negsuc b = negsuc (suc (a + b))

-- `Control`
pub record Control : Type 0 where
  pub add : List ℕ
  pub copied : List ℕ
  pub seek : ℤ
  pub eof : Bool

-- `IndividualPatchContext`
pub record PatchState : Type 0 where
  pub old_offset : ℤ
  pub out : Output

pub data PatchError : Type 0 where
  read_failed seek_failed add_failed add_short copy_failed wrong_size : PatchError

-- `AdderReader` over the rest of the old file, up to the length of its buffer: bytes wrap around.
unfoldable pub add_bytes : List ℕ → List ℕ → List ℕ
add_bytes [] old = []
add_bytes (b ∷ bs) [] = []
add_bytes (b ∷ bs) (o ∷ os) = (o + b) % 2 ^ 8 ∷ add_bytes bs os

module _ (old : List ℕ) where
  -- The old data, with the diff added. (A reader that gives its last bytes together with io.EOF
  -- would have them written without the diff, before the same error; that is left out.)
  pub apply_add : List ℕ → ℕ → Output → Option PatchError × PatchState
  unfolding add_bytes copy
  apply_add [] offset out = (none, record { old_offset = pos offset; out = out })
  apply_add (b ∷ bs) offset out =
      let c = copy (add_bytes (b ∷ bs) (drop offset old)) false out in
      if c.failed
      then (some add_failed, record { old_offset = pos offset; out = c.output })
      else if c.count == length (b ∷ bs)
      then (none, record { old_offset = pos (offset + length (b ∷ bs)); out = c.output })
      else (some add_short, record { old_offset = pos offset; out = c.output })

  -- The extra data, and the seek behind it.
  pub apply_copy : List ℕ → ℤ → PatchState → Option PatchError × PatchState
  unfolding copy
  apply_copy [] seek s = (none, record s { old_offset = s.old_offset +ℤ seek })
  apply_copy (b ∷ bs) seek s =
      let c = copy (b ∷ bs) false s.out in
      if c.failed
      then (some copy_failed, record s { out = c.output })
      else (none, record { old_offset = s.old_offset +ℤ seek; out = c.output })

  -- `IndividualPatchContext.Apply`
  unfoldable pub apply : Control → PatchState → Option PatchError × PatchState
  unfolding apply_add apply_copy
  apply ctrl s = elim s.old_offset [
    | negsuc n ↦ (some seek_failed, s)
    | pos offset ↦ elim (ltb (length old) offset) [
      | true ↦ (some seek_failed, s)
      | false ↦
          let (e, s') = apply_add ctrl.add offset s.out in
          elim e [ some x ↦ (some x, s') | none ↦ apply_copy ctrl.copied ctrl.seek s' ]
    ]
  ]

  unfoldable pub apply_all : List Control → PatchState → Option PatchError × PatchState
  unfolding apply
  apply_all [] s = (some read_failed, s)
  apply_all (ctrl ∷ ctrls) s = elim ctrl.eof [
    | true ↦ (none, s)
    | false ↦
        let (e, s') = apply ctrl s in elim e [ some x ↦ (some x, s') | none ↦ apply_all ctrls s' ]
  ]

  -- `PatchContext.Patch`: what was written is counted.
  unfoldable pub patch_old : List Control → ℕ → Output → Option PatchError × PatchState
  unfolding apply_all
  patch_old ctrls new_size out =
      let (e, s) = apply_all ctrls (record { old_offset = pos 0; out = out }) in
      elim e [
        | some x ↦ (some x, s)
        | none ↦
            if length s.out.written - length out.written == new_size
            then (none, s)
            else (some wrong_size, s)
      ]
