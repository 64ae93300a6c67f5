-- ===== src/Labs/Checkpoints/Once.antt =====
-- What the table of kafka/checkpoints/str2_checkpoints.ipynb holds, however often the stream is
-- restarted.
use spark_dev.Base.{
  ℕ, zero, suc, ◌≤◌, ◌≡◌, refl, sym, ap, ◌∙◌, true, false, Bool-cases, none, some, String, List, [],
  ◌∷◌, ◌++◌, map, length, take, length-append, All, str_eq, eq_iff, if◌then◌else◌, inl, inr, arith,
}
use spark_dev.Labs.Checkpoints.{
  Row, drop, set, World, Engine, IsAvailableNow, start_offset, stream_query, Action, produce,
  run_stream, act, act_all,
}

module _ {A : Type 0} where
  take-drop : (n : ℕ) (xs : List A) → take n xs ++ drop n xs ≡ xs
  take-drop zero xs = refl
  take-drop (suc n) [] = refl
  take-drop (suc n) (x ∷ xs) = ap (λ l. x ∷ l) (take-drop n xs)

  take_append : (n : ℕ) (xs ys : List A) → n ≤ length xs → take n (xs ++ ys) ≡ take n xs
  take_append zero xs ys h = refl
  take_append (suc n) [] ys h = absurd (omega arith)
  take_append (suc n) (x ∷ xs) ys h = ap (λ l. x ∷ l) (take_append n xs ys (omega arith))

  take-length : (xs : List A) → take (length xs) xs ≡ xs
  take-length [] = refl
  take-length (x ∷ xs) = ap (λ l. x ∷ l) (take-length xs)

module _ {A : Type 0} (k q : String) (a : A) (f : String → A) where
  set_same : str_eq k q ≡ true → set k a f q ≡ a
  set_same h = ap (λ b. if b then a else f q) h

  set_other : str_eq k q ≡ false → set k a f q ≡ f q
  set_other h = ap (λ b. if b then a else f q) h

map-append : {A B : Type 0} (f : A → B) (xs ys : List A) → map f (xs ++ ys) ≡ map f xs ++ map f ys
map-append f [] ys = refl
map-append f (x ∷ xs) ys = ap (λ l. f x ∷ l) (map-append f xs ys)

module _ {V : Type 0} (engine : Engine V) (laws : IsAvailableNow engine) (parse : V → Row)
    (ckpt sink : String) where
  -- A run uses the checkpoint if and only if it writes the table.
  abbrev pub IsPaired : Action V → Type 0
  IsPaired (produce values) = Unit
  IsPaired (run_stream checkpoint table) = str_eq checkpoint ckpt ≡ str_eq table sink

  -- The table holds the rows of the values before the checkpoint's offset.
  abbrev IsCaughtUp : World V → Type 0
  IsCaughtUp w =
      (w.tables sink ≡ map parse (take (start_offset (w.checkpoints ckpt)) w.topic))
      × (start_offset (w.checkpoints ckpt) ≤ length w.topic)

  caught_up-reads :
      (w : World V)
      → IsCaughtUp w
      → w.tables sink ++ map parse (engine.reads (w.checkpoints ckpt) w.topic) ≡ map parse w.topic
  caught_up-reads w (rows, _) =
      let n = start_offset (w.checkpoints ckpt) in
      ap (λ l. w.tables sink ++ map parse l) (laws.reads_rest (w.checkpoints ckpt) w.topic)
      ∙ ap (λ l. l ++ map parse (drop n w.topic)) rows
      ∙ sym (map-append parse (take n w.topic) (drop n w.topic))
      ∙ ap (map parse) (take-drop n w.topic)

  -- A run with the checkpoint and the table, and one with neither.
  run-IsCaughtUp :
      (checkpoint table : String) (w : World V)
      → str_eq checkpoint ckpt ≡ true
      → str_eq table sink ≡ true
      → IsCaughtUp w
      → IsCaughtUp (stream_query engine parse checkpoint table w)
  unfolding stream_query
  run-IsCaughtUp checkpoint table w c t h =
      let end = engine.leaves (w.checkpoints checkpoint) w.topic in
      let offset = set_same checkpoint ckpt (some end) w.checkpoints c in
      let at_end = laws.leaves_end (w.checkpoints checkpoint) w.topic in
      (
        set_same table sink
              (w.tables table ++ map parse (engine.reads (w.checkpoints checkpoint) w.topic))
              w.tables t
            ∙ ap (λ q. w.tables q ++ map parse (engine.reads (w.checkpoints checkpoint) w.topic))
                ((eq_iff table sink).0 t)
            ∙ ap (λ q. w.tables sink ++ map parse (engine.reads (w.checkpoints q) w.topic))
                ((eq_iff checkpoint ckpt).0 c)
            ∙ caught_up-reads w h
            ∙ sym (
                ap (λ o. map parse (take (start_offset o) w.topic)) offset
                ∙ ap (λ n. map parse (take n w.topic)) at_end
                ∙ ap (map parse) (take-length w.topic)),
        omega (arith, ap start_offset offset, at_end),
      )

  other_run-IsCaughtUp :
      (checkpoint table : String) (w : World V)
      → str_eq checkpoint ckpt ≡ false
      → str_eq table sink ≡ false
      → IsCaughtUp w
      → IsCaughtUp (stream_query engine parse checkpoint table w)
  unfolding stream_query
  other_run-IsCaughtUp checkpoint table w c t (rows, bound) =
      let end = engine.leaves (w.checkpoints checkpoint) w.topic in
      let offset = set_other checkpoint ckpt (some end) w.checkpoints c in
      (
        set_other table sink
              (w.tables table ++ map parse (engine.reads (w.checkpoints checkpoint) w.topic))
              w.tables t
            ∙ rows
            ∙ sym (ap (λ o. map parse (take (start_offset o) w.topic)) offset),
        omega (arith, ap start_offset offset, bound),
      )

  act-IsCaughtUp :
      (a : Action V) (w : World V) → IsPaired a → IsCaughtUp w → IsCaughtUp (act engine parse a w)
  unfolding act
  act-IsCaughtUp (produce values) w p (rows, bound) = (
    rows
        ∙ sym
            (ap (map parse) (take_append (start_offset (w.checkpoints ckpt)) w.topic values bound)),
    omega (arith, bound, length-append w.topic values),
  )
  act-IsCaughtUp (run_stream checkpoint table) w p h = elim (Bool-cases (str_eq checkpoint ckpt)) [
    | inl c ↦ run-IsCaughtUp checkpoint table w c (sym p ∙ c) h
    | inr c ↦ other_run-IsCaughtUp checkpoint table w c (sym p ∙ c) h
  ]

  act_all-IsCaughtUp :
      (actions : List (Action V)) (w : World V)
      → All IsPaired actions
      → IsCaughtUp w
      → IsCaughtUp (act_all engine parse actions w)
  unfolding act_all
  act_all-IsCaughtUp [] w p h = h
  act_all-IsCaughtUp (a ∷ actions) w p h =
      act_all-IsCaughtUp actions (act engine parse a w) p.1 (act-IsCaughtUp a w p.0 h)

  -- With Spark's documented checkpoints, from a fresh checkpoint and an empty table, after any sequence of productions and runs in which
  -- the checkpoint is used for the table only, and the table with it only, one more run leaves in
  -- the table the row of every value on the topic, once and in order.
  pub sink_exactly_once :
      (actions : List (Action V)) (w : World V)
      → All IsPaired actions
      → w.checkpoints ckpt ≡ none
      → w.tables sink ≡ []
      → let w' = act_all engine parse actions w in
        (stream_query engine parse ckpt sink w').tables sink ≡ map parse w'.topic
  unfolding stream_query
  sink_exactly_once actions w p fresh empty =
      let w' = act_all engine parse actions w in
      let h = act_all-IsCaughtUp actions w p (first fresh empty) in
      set_same sink sink _ w'.tables ((eq_iff sink sink).1 refl) ∙ caught_up-reads w' h
    where
      first : w.checkpoints ckpt ≡ none → w.tables sink ≡ [] → IsCaughtUp w
      first fresh empty = (
        empty ∙ sym (ap (λ o. map parse (take (start_offset o) w.topic)) fresh),
        omega (arith, ap start_offset fresh),
      )
