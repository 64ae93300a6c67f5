-- ===== src/MetricsDiff/Tag.antt =====
-- `_tag_safe` of common/metrics_diff.py.
use spark_dev.Base.{
  ℕ, ◌≡◌, ◌≢◌, refl, Bool, true, false, ◌&&◌, ◌||◌, [], ◌∷◌, leb, ◌==◌, if◌then◌else◌, All, arith,
}
use spark_dev.Base.Text.{Text, codes}

-- `[A-Za-z0-9_-]`
unfoldable pub is_tag_char : ℕ → Bool
is_tag_char c =
    (leb b'A' c && leb c b'Z')
    || ((leb b'a' c && leb c b'z') || ((leb b'0' c && leb c b'9') || (c == b'_' || c == b'-')))

-- `re.sub`: every run of other characters becomes one dash; the flag is true inside a run
unfoldable pub dashed : Bool → Text → Text
dashed in_run [] = []
dashed in_run (c ∷ s) =
    let same_run = dashed true s in
    let after_char = dashed false s in
    if is_tag_char c then c ∷ after_char else if in_run then same_run else b'-' ∷ same_run

-- `.strip("-")` at the front, and at the back
unfoldable pub strip_front : Text → Text
strip_front [] = []
strip_front (c ∷ s) = if c == b'-' then strip_front s else c ∷ s

unfoldable pub strip_back : Text → Text
strip_back [] = []
strip_back (c ∷ s) = elim (strip_back s) [
  | [] ↦ if c == b'-' then [] else c ∷ []
  | d ∷ t ↦ c ∷ d ∷ t
]

-- `tag or "step"`
abbrev pub or_step : Text → Text
or_step [] = codes "step"
or_step (c ∷ s) = c ∷ s

unfoldable pub tag_safe : Text → Text
unfolding dashed strip_front strip_back
tag_safe label = or_step (strip_back (strip_front (dashed false label)))

abbrev pub IsTagChar : ℕ → Type 0
IsTagChar c = is_tag_char c ≡ true

dashed-IsTagChar : (in_run : Bool) (s : Text) → All IsTagChar (dashed in_run s)
unfolding dashed is_tag_char
dashed-IsTagChar in_run [] = tt
dashed-IsTagChar in_run (c ∷ s) =
    let same_run = dashed-IsTagChar true s in
    let after_char = dashed-IsTagChar false s in
    place (is_tag_char c) refl in_run same_run after_char
  where
    place :
        (b : Bool)
        → is_tag_char c ≡ b
        → (in_run : Bool) → All IsTagChar (dashed true s)
        → All IsTagChar (dashed false s)
        → All IsTagChar (
            if b
            then c ∷ dashed false s
            else if in_run
            then dashed true s
            else b'-' ∷ dashed true s)
    place true e r p q = (e, q)
    place false e true p q = p
    place false e false p q = (refl, p)

strip_front-All : (P : ℕ → Type 0) (s : Text) → All P s → All P (strip_front s)
unfolding strip_front
strip_front-All P [] h = tt
strip_front-All P (c ∷ s) h = ground (arith, strip_front-All P s h.1)

strip_back-All : (P : ℕ → Type 0) (s : Text) → All P s → All P (strip_back s)
unfolding strip_back
strip_back-All P [] h = tt
strip_back-All P (c ∷ s) h = kept (strip_back s) (strip_back-All P s h.1)
  where
    kept :
        (t : Text)
        → All P t
        → All P (elim t [ [] ↦ if c == b'-' then [] else c ∷ [] | d ∷ t ↦ c ∷ d ∷ t ])
    kept [] q = only (c == b'-')
      where
        only : (b : Bool) → All P (if b then [] else c ∷ [])
        only true = tt
        only false = (h.0, tt)
    kept (d ∷ t) q = (h.0, q)

or_step-legal : (s : Text) → All IsTagChar s → All IsTagChar (or_step s) × (or_step s ≢ [])
unfolding is_tag_char
or_step-legal [] h = ((refl, (refl, (refl, (refl, tt)))), λ e. cc)
or_step-legal (c ∷ s) h = (h, λ e. cc)

-- A tag is never empty, and all its characters are letters, digits, dashes and underscores.
pub tag_safe_legal : (label : Text) → All IsTagChar (tag_safe label) × (tag_safe label ≢ [])
unfolding tag_safe
tag_safe_legal label =
    or_step-legal (strip_back (strip_front (dashed false label)))
      (strip_back-All IsTagChar _ (strip_front-All IsTagChar _ (dashed-IsTagChar false label)))
