-- ===== src/Pwr/Bowl/Transpositions/Renamed.antt =====
-- The second loop of `applyTranspositions` (pwr/bowl/bowl_overlay.go), without its variables: what
-- it makes of a group's transpositions, and the renames that it leaves for later.
use wharf.Base.{
  ℕ, suc, Bool, true, false, List, [], ◌∷◌, ◌++◌, ◌≡◌, ◌≢◌, ◌∙◌, refl, sym, ap, ap₂, Bool-cases,
  inl, inr, bytes_equal, if◌then◌else◌, append_assoc, append-nil,
}
use wharf.Pwr.Bowl.{FilePath}
use wharf.Pwr.Bowl.Transpositions.{
  PathTranspo, Group, Renaming, safe_path, avoid_clash, avoid_clashes, rename_clashes,
}

-- A path that is not one of the names that the loop makes up
abbrev pub Plain : FilePath → Type 0
Plain p = (o : FilePath) (n : ℕ) → p ≢ safe_path o n

abbrev pub wait : PathTranspo → ℕ → PathTranspo
wait t n = record { target_path = safe_path t.output_path n; output_path = t.output_path }

abbrev pub all_transpos : List Group → List PathTranspo
all_transpos [] = []
all_transpos (g ∷ gs) = g.transpos ++ all_transpos gs

module _ (is_target : FilePath → Bool) where
  abbrev pub clashes : PathTranspo → Bool
  clashes t = if bytes_equal t.target_path t.output_path then false else is_target t.output_path

  abbrev pub renamed : ℕ → List PathTranspo → List PathTranspo
  renamed n [] = []
  renamed n (t ∷ ts) = elim (clashes t) [
    | false ↦ t ∷ renamed n ts
    | true ↦ record t { output_path = safe_path t.output_path (suc n) } ∷ renamed (suc n) ts
  ]

  abbrev pub renames : ℕ → List PathTranspo → List PathTranspo
  renames n [] = []
  renames n (t ∷ ts) = elim (clashes t) [
    | false ↦ renames n ts
    | true ↦ wait t (suc n) ∷ renames (suc n) ts
  ]

  abbrev pub next_seed : ℕ → List PathTranspo → ℕ
  next_seed n [] = n
  next_seed n (t ∷ ts) = elim (clashes t) [ false ↦ next_seed n ts | true ↦ next_seed (suc n) ts ]

  abbrev made : ℕ → List PathTranspo → List PathTranspo → Renaming
  made seed renames transpos = record {
    seed = seed;
    cleanup_renames = renames;
    transpos = transpos;
  }

  avoid_clashes-made :
      (ts : List PathTranspo) (n : ℕ) (rs done : List PathTranspo)
      → avoid_clashes is_target ts (made n rs done)
        ≡ made (next_seed n ts) (rs ++ renames n ts) (done ++ renamed n ts)
  unfolding avoid_clashes avoid_clash
  avoid_clashes-made [] n rs done = rw (append-nil rs, append-nil done)
  avoid_clashes-made (t ∷ ts) n rs done =
      elim (Bool-cases (bytes_equal t.target_path t.output_path)) [
        | inl e ↦
            rw (avoid_clash, next_seed, renames, renamed, e)
              (avoid_clashes-made ts n rs (done ++ (t ∷ []))
                ∙ ap (made (next_seed n ts) (rs ++ renames n ts))
                    (append_assoc done (t ∷ []) (renamed n ts)))
        | inr e ↦ elim (Bool-cases (is_target t.output_path)) [
          | inl e' ↦
              rw (avoid_clash, next_seed, renames, renamed, e, e')
                (let t' : PathTranspo = record t {
                  output_path = safe_path t.output_path (suc n);
                } in
                  avoid_clashes-made ts (suc n) (rs ++ (wait t (suc n) ∷ [])) (done ++ (t' ∷ []))
                  ∙ ap₂ (made (next_seed (suc n) ts))
                      (append_assoc rs (wait t (suc n) ∷ []) (renames (suc n) ts))
                      (append_assoc done (t' ∷ []) (renamed (suc n) ts)))
          | inr e' ↦
              rw (avoid_clash, next_seed, renames, renamed, e, e')
                (avoid_clashes-made ts n rs (done ++ (t ∷ []))
                  ∙ ap (made (next_seed n ts) (rs ++ renames n ts))
                      (append_assoc done (t ∷ []) (renamed n ts)))
        ]
      ]

  abbrev pub renamed_groups : ℕ → List Group → List Group
  renamed_groups n [] = []
  renamed_groups n (g ∷ gs) =
      record g { transpos = renamed n g.transpos } ∷ renamed_groups (next_seed n g.transpos) gs

  renames-append :
      (n : ℕ) (ts ts' : List PathTranspo)
      → renames n (ts ++ ts') ≡ renames n ts ++ renames (next_seed n ts) ts'
  renames-append n [] ts' = refl
  renames-append n (t ∷ ts) ts' = elim (Bool-cases (clashes t)) [
    | inl e ↦
        rw (renames, next_seed, e) (ap (λ x. wait t (suc n) ∷ x) (renames-append (suc n) ts ts'))
    | inr e ↦ rw (renames, next_seed, e) (renames-append n ts ts')
  ]

  renamed-append :
      (n : ℕ) (ts ts' : List PathTranspo)
      → renamed n (ts ++ ts') ≡ renamed n ts ++ renamed (next_seed n ts) ts'
  renamed-append n [] ts' = refl
  renamed-append n (t ∷ ts) ts' = elim (Bool-cases (clashes t)) [
    | inl e ↦
        rw (renamed, next_seed, e)
          (ap (λ x. record t { output_path = safe_path t.output_path (suc n) } ∷ x)
            (renamed-append (suc n) ts ts'))
    | inr e ↦ rw (renamed, next_seed, e) (ap (λ x. t ∷ x) (renamed-append n ts ts'))
  ]

  pub all_transpos-renamed :
      (n : ℕ) (gs : List Group) → all_transpos (renamed_groups n gs) ≡ renamed n (all_transpos gs)
  all_transpos-renamed n [] = refl
  all_transpos-renamed n (g ∷ gs) =
      ap (λ x. renamed n g.transpos ++ x) (all_transpos-renamed (next_seed n g.transpos) gs)
      ∙ sym (renamed-append n g.transpos (all_transpos gs))

  -- The loop gives each group its new names, and the renames of all groups in their order.
  pub rename_clashes-renamed :
      (gs : List Group) (n : ℕ) (rs : List PathTranspo)
      → rename_clashes is_target gs n rs ≡ (renamed_groups n gs, rs ++ renames n (all_transpos gs))
  unfolding rename_clashes
  rename_clashes-renamed [] n rs = rw (append-nil rs)
  rename_clashes-renamed (g ∷ gs) n rs =
      rw (rename_clashes, avoid_clashes-made g.transpos n rs [])
        (ap
            (λ (x : List Group × List PathTranspo).
              (record g { transpos = renamed n g.transpos } ∷ x.0, x.1))
            (rename_clashes-renamed gs (next_seed n g.transpos) (rs ++ renames n g.transpos))
          ∙ ap (λ x. (renamed_groups n (g ∷ gs), x))
              (append_assoc rs (renames n g.transpos)
                  (renames (next_seed n g.transpos) (all_transpos gs))
                ∙ ap (λ x. rs ++ x) (sym (renames-append n g.transpos (all_transpos gs)))))
