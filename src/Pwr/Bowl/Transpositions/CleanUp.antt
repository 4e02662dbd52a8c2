-- ===== src/Pwr/Bowl/Transpositions/CleanUp.antt =====
-- The last loop of `applyTranspositions` (pwr/bowl/bowl_overlay.go), which moves the files that
-- wait under another name.
use wharf.Base.{List, [], ◌∷◌, All, All-zip, ◌≡◌, ◌≢◌, ◌∙◌, refl}
use wharf.Pwr.Bowl.{FilePath}
use wharf.Pwr.Bowl.Disk.{in_output, for_each, FileSystem, IsFileSystem}
use wharf.Pwr.Bowl.Disk.Moves.{Ok, seq-Ok, Moved, move-Moved}
use wharf.Pwr.Bowl.Transpositions.{PathTranspo, clean_up}
use wharf.Pwr.Bowl.Transpositions.Copies.{in_output-apart}

-- Neither of the two names of a rename
pub record Beside (q : FilePath) (r : PathTranspo) : Type 0 where
  pub old : q ≢ r.target_path
  pub new : q ≢ r.output_path

-- What keeps a rename from the ones behind it
abbrev pub Clean : List PathTranspo → Type 0
Clean [] = Unit
Clean (r ∷ rs) =
    (r.target_path ≢ r.output_path)
    × All (Beside r.output_path) rs
    × All (λ (r' : PathTranspo). Beside r'.target_path r) rs
    × Clean rs

module _ {D : Type 0} (fs : FileSystem D) where
  pub record CleanedUp (rs : List PathTranspo) (d d' : D) : Type 0 where
    pub moved :
        All
          (λ (r : PathTranspo).
            fs.read (in_output r.output_path) d' ≡ fs.read (in_output r.target_path) d)
          rs
    pub keeps :
        (q : FilePath) → All (Beside q) rs → fs.read (in_output q) d' ≡ fs.read (in_output q) d

module _ {D : Type 0} (fs : FileSystem D) (law : IsFileSystem fs) where
  CleanedUp-cons :
      (r : PathTranspo) (rs : List PathTranspo) (d d' d'' : D)
      → Clean (r ∷ rs)
      → Moved fs (in_output r.target_path) (in_output r.output_path) d d'
      → CleanedUp fs rs d' d''
      → CleanedUp fs (r ∷ rs) d d''
  CleanedUp-cons r rs d d' d'' clean v w =
      let stays = λ (q : FilePath) (b : Beside q r).
        v.keeps (in_output q) (in_output-apart q r.target_path b.old)
          (in_output-apart q r.output_path b.new) in
      record {
        moved = (
          w.keeps r.output_path clean.1 ∙ v.same,
          All-zip (λ (r' : PathTranspo). Beside r'.target_path r)
              (λ (r' : PathTranspo).
                fs.read (in_output r'.output_path) d'' ≡ fs.read (in_output r'.target_path) d')
              (λ (r' : PathTranspo).
                fs.read (in_output r'.output_path) d'' ≡ fs.read (in_output r'.target_path) d)
              rs (λ r' b h. h ∙ stays r'.target_path b) clean.2 w.moved,
        );
        keeps = λ q h. w.keeps q h.1 ∙ stays q h.0;
      }

  pub clean_up-CleanedUp :
      (rs : List PathTranspo) (d : D)
      → Clean rs
      → Ok (for_each (clean_up fs) rs) d (CleanedUp fs rs d)
  unfolding clean_up
  clean_up-CleanedUp [] d clean = λ h. record { moved = tt; keeps = λ q h'. refl }
  clean_up-CleanedUp (r ∷ rs) d clean =
      seq-Ok (CleanedUp fs (r ∷ rs) d)
        (Moved fs (in_output r.target_path) (in_output r.output_path) d) (clean_up fs r)
        (for_each (clean_up fs) rs) d
        (move-Moved fs law (in_output r.target_path) (in_output r.output_path)
          (in_output-apart r.target_path r.output_path clean.0) d)
        (λ d' v h.
          CleanedUp-cons r rs d d' (for_each (clean_up fs) rs d').1 clean v
            (clean_up-CleanedUp rs d' clean.3 h))
