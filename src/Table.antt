-- ===== src/Table.antt =====
-- The Markdown tables that `compare_health` of common/iceberg_meta.py and `compare` of
-- common/metrics_diff.py print, as lists of lines. How a number is written is a parameter.
pub mod Health
pub mod Runs
use spark_dev.Base.{
  ℕ, zero, suc, max, ◌+◌, ◌-◌, ◌≤◌, ◌≡◌, refl, List, [], ◌∷◌, ◌++◌, map, length, length-append,
  replicate, arith,
}
use spark_dev.Base.Text.{Text, codes}

-- `.ljust` and `.rjust`
unfoldable pub ljust : ℕ → Text → Text
ljust w s = s ++ replicate (w - length s) b' '

unfoldable pub rjust : ℕ → Text → Text
rjust w s = replicate (w - length s) b' ' ++ s

-- `" | ".join(…)` of the cells in their columns
unfoldable pub join_cells : List ℕ → List Text → Text
unfolding rjust
join_cells [] cs = []
join_cells (w ∷ ws) [] = []
join_cells (w ∷ []) (c ∷ cs) = rjust w c
join_cells (w ∷ v ∷ ws) (c ∷ cs) = rjust w c ++ codes " | " ++ join_cells (v ∷ ws) cs

unfoldable pub row : ℕ → List ℕ → Text → List Text → Text
unfolding ljust join_cells
row name_w col_w name cells =
    codes "| " ++ ljust name_w name ++ codes " | " ++ join_cells col_w cells ++ codes " |"

-- `"-" * w`
abbrev pub dashes : ℕ → Text
dashes w = replicate w b'-'

unfoldable pub separator : ℕ → List ℕ → Text
unfolding join_cells
separator name_w col_w =
    codes "| " ++ dashes name_w ++ codes " | " ++ join_cells col_w (map dashes col_w) ++ codes " |"

-- `max(len(label), 12)`
abbrev pub column_widths : List Text → List ℕ
column_widths labels = map (λ l. max (length l) 12) labels

unfoldable pub widest : List Text → ℕ
widest [] = 0
widest (n ∷ ns) = max (length n) (widest ns)

-- every cell has a column and fits into it
abbrev pub Fits : List ℕ → List Text → Type 0
Fits [] [] = Unit
Fits [] (c ∷ cs) = ⊥
Fits (w ∷ ws) [] = ⊥
Fits (w ∷ ws) (c ∷ cs) = (length c ≤ w) × Fits ws cs

abbrev joined_width : List ℕ → ℕ
joined_width [] = 0
joined_width (w ∷ []) = w
joined_width (w ∷ v ∷ ws) = w + (3 + joined_width (v ∷ ws))

length-replicate : (n c : ℕ) → length (replicate n c) ≡ n
length-replicate zero c = refl
length-replicate (suc n) c = omega (arith, length-replicate n c)

length-rjust : (w : ℕ) (s : Text) → length s ≤ w → length (rjust w s) ≡ w
unfolding rjust
length-rjust w s h =
    let whole = length-append (replicate (w - length s) b' ') s in
    let blanks = length-replicate (w - length s) b' ' in omega (arith, whole, blanks, h)

length-ljust : (w : ℕ) (s : Text) → length s ≤ w → length (ljust w s) ≡ w
unfolding ljust
length-ljust w s h =
    let whole = length-append s (replicate (w - length s) b' ') in
    let blanks = length-replicate (w - length s) b' ' in omega (arith, whole, blanks, h)

length-join_cells :
    (ws : List ℕ) (cs : List Text) → Fits ws cs → length (join_cells ws cs) ≡ joined_width ws
unfolding join_cells
length-join_cells [] [] h = refl
length-join_cells [] (c ∷ cs) h = absurd h
length-join_cells (w ∷ ws) [] h = absurd h
length-join_cells (w ∷ []) (c ∷ cs) h = length-rjust w c h.0
length-join_cells (w ∷ v ∷ ws) (c ∷ cs) h =
    let rest = length-join_cells (v ∷ ws) cs h.1 in
    let cell = length-rjust w c h.0 in
    let front = length-append (rjust w c) (codes " | ") in
    let whole = length-append (rjust w c ++ codes " | ") (join_cells (v ∷ ws) cs) in
    omega (arith, rest, cell, front, whole)

dashes-Fits : (ws : List ℕ) → Fits ws (map dashes ws)
dashes-Fits [] = tt
dashes-Fits (w ∷ ws) = (omega (arith, length-replicate w b'-'), dashes-Fits ws)

framed :
    (name line : Text)
    → length (codes "| " ++ name ++ codes " | " ++ line ++ codes " |")
      ≡ length name + length line + 7
framed name line =
    let front = length-append name (codes " | ") in
    let middle = length-append (name ++ codes " | ") line in
    let whole = length-append (name ++ codes " | " ++ line) (codes " |") in
    omega (arith, front, middle, whole)

-- A row whose name and cells fit their columns is as long as the line of dashes.
pub row_aligned :
    (name_w : ℕ) (col_w : List ℕ) (name : Text) (cells : List Text)
    → length name ≤ name_w
    → Fits col_w cells
    → length (row name_w col_w name cells) ≡ length (separator name_w col_w)
unfolding row separator
row_aligned name_w col_w name cells n f =
    let line = framed (ljust name_w name) (join_cells col_w cells) in
    let sep = framed (dashes name_w) (join_cells col_w (map dashes col_w)) in
    let cs = length-join_cells col_w cells f in
    let ds = length-join_cells col_w (map dashes col_w) (dashes-Fits col_w) in
    omega (arith, line, sep, cs, ds, length-ljust name_w name n, length-replicate name_w b'-')
