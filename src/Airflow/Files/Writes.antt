-- ===== src/Airflow/Files/Writes.antt =====
-- A task that runs for several keys, and writes one file of its own for each.
use spark_dev.Base.{◌≡◌, ◌≢◌, ◌⊎◌, inl, inr, refl, sym, ap, ◌∙◌, some, List, [], ◌∷◌, In}
use spark_dev.Base.Text.{Text, text_eq-cases}
use spark_dev.Airflow.Files.{Files, write, run_each, write_same, write_other}

module _ {K L : Type 0} (path : K → Text) (content : K → List L) where
  abbrev writes : K → Files L → Files L
  writes k = write (path k) (content k)

  -- What a file holds after the runs: the lines of a key among them, or what it held before.
  abbrev IsWritten : List K → Files L → Text → Type 0
  IsWritten keys files q =
      ((k : K) × In k keys × (path k ≡ q) × (run_each writes keys files q ≡ some (content k)))
      ⊎ (((k : K) → In k keys → path k ≢ q) × (run_each writes keys files q ≡ files q))

  pub run_each-IsWritten : (keys : List K) (files : Files L) (q : Text) → IsWritten keys files q
  unfolding run_each
  run_each-IsWritten [] files q = inr (λ k m. absurd m, refl)
  run_each-IsWritten (k ∷ keys) files q = elim (run_each-IsWritten keys (writes k files) q) [
    | inl (d, m, e, r) ↦ inl (d, inr m, e, r)
    | inr (out, r) ↦ elim (text_eq-cases (path k) q) [
      | inl e ↦ inl (k, inl refl, e, r ∙ written e)
      | inr (ne, _) ↦ inr (
        λ d m. elim m [ inl e ↦ (λ p. ne (ap path (sym e) ∙ p)) | inr m' ↦ out d m' ],
        r ∙ write_other (path k) q (content k) files ne,
      )
    ]
  ]
    where
      written : path k ≡ q → write (path k) (content k) files q ≡ some (content k)
      written e =
          ap (write (path k) (content k) files) (sym e) ∙ write_same (path k) (content k) files

  module _ (inj : (a b : K) → path a ≡ path b → a ≡ b) where
    -- The file of each key of the runs holds the key's lines.
    pub run_each_holds :
        (keys : List K) (files : Files L) (k : K)
        → In k keys
        → run_each writes keys files (path k) ≡ some (content k)
    run_each_holds keys files k m = elim (run_each-IsWritten keys files (path k)) [
      | inl (d, _, e, r) ↦ r ∙ ap (λ x. some (content x)) (inj d k e)
      | inr (out, _) ↦ absurd (out k m refl)
    ]
