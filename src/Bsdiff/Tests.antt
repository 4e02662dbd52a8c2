-- ===== src/Bsdiff/Tests.antt =====
-- Runs of a bsdiff patch (bsdiff/patch.go).
use wharf.Base.{
  ℕ, ◌≡◌, refl, true, false, none, some, List, [], ◌∷◌, ◌++◌, length, ◌==◌, if◌then◌else◌, arith,
}
use wharf.Wsync.Apply.{Output, copy}
use wharf.Bsdiff.{
  ℤ, pos, negsuc, ◌+ℤ◌, Control, add_bytes, patch_old, wrong_size, seek_failed, add_short,
}
use wharf.Bsdiff.Spec.{spec_bytes, patch_old-spec_bytes}

abbrev old : List ℕ
old = 10 ∷ 20 ∷ 30 ∷ 40 ∷ []

abbrev control : List ℕ → List ℕ → ℤ → Control
control add copied seek = record { add = add; copied = copied; seek = seek; eof = false }

abbrev end : Control
end = record { add = []; copied = []; seek = pos 0; eof = true }

-- Two bytes of the old file, the second changed, then one new byte; and the first byte again.
abbrev controls : List Control
controls = control (0 ∷ 255 ∷ []) (7 ∷ []) (negsuc 1) ∷ control (1 ∷ []) [] (pos 0) ∷ end ∷ []

abbrev out : Output
out = record { written = []; room = 10 }

abbrev new_content : List ℕ
new_content = 10 ∷ 19 ∷ 7 ∷ 11 ∷ []

patch_old_runs : (patch_old old controls 4 out).1.out.written ≡ new_content
unfolding patch_old add_bytes copy ◌+ℤ◌
patch_old_runs = refl

patch_old_fails :
    ((patch_old old controls 5 out).0 ≡ some wrong_size)
    × ((patch_old old (control [] [] (negsuc 0) ∷ control (1 ∷ []) [] (pos 0) ∷ []) 1 out).0
        ≡ some seek_failed)
    × ((patch_old old (control [] [] (pos 4) ∷ control (1 ∷ []) [] (pos 0) ∷ []) 1 out).0
        ≡ some add_short)
unfolding patch_old add_bytes copy ◌+ℤ◌
patch_old_fails = (refl, refl, refl)

stands_for : spec_bytes old controls (pos 0) ≡ some new_content
unfolding spec_bytes add_bytes ◌+ℤ◌
stands_for = refl

patch_old-spec_bytes_example :
    ((patch_old old controls 4 out).0 ≡ (if length new_content == 4 then none else some wrong_size))
    × ((patch_old old controls 4 out).1.out.written ≡ [] ++ new_content)
patch_old-spec_bytes_example =
    patch_old-spec_bytes old controls 4 out new_content stands_for (omega arith)
