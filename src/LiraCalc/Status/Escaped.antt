-- ===== src/LiraCalc/Status/Escaped.antt =====
-- attr_escape: the text of an attribute cannot end it, and no two texts look the same.
use java_io_tserver.Common.{ℕ, ◌≡◌, refl, sym, Bool, true, ◌&&◌, [], ◌∷◌, ◌++◌, arith}
use java_io_tserver.Common.Text.{Bytes, lacks}
use java_io_tserver.LiraCalc.Status.{escape_char, attr_escape}

lacks-append : (c : ℕ) (s t : Bytes) → lacks c (s ++ t) ≡ (lacks c s && lacks c t)
unfolding lacks
lacks-append c [] t = refl
lacks-append c (x ∷ s) t = ground (arith, lacks-append c s t)

-- No quote and no angle bracket.
unfoldable pub is_inert : Bytes → Bool
is_inert s = lacks b'"' s && (lacks b'\'' s && (lacks b'<' s && lacks b'>' s))

escape_char-is_inert : (c : ℕ) → is_inert (escape_char c) ≡ true
unfolding is_inert escape_char lacks
escape_char-is_inert c = ground arith

is_inert-append : (s t : Bytes) → is_inert s ≡ true → is_inert t ≡ true → is_inert (s ++ t) ≡ true
unfolding is_inert
is_inert-append s t p q = ground (
  arith,
  lacks-append b'"' s t,
  lacks-append b'\'' s t,
  lacks-append b'<' s t,
  lacks-append b'>' s t,
)

attr_escape-is_inert : (s : Bytes) → is_inert (attr_escape s) ≡ true
unfolding attr_escape is_inert lacks
attr_escape-is_inert [] = refl
attr_escape-is_inert (c ∷ s) =
    is_inert-append (escape_char c) (attr_escape s) (escape_char-is_inert c)
      (attr_escape-is_inert s)

-- The first character of an escaped text is known from the text.
escape_char-cancel :
    (c d : ℕ) (x y : Bytes) → escape_char c ++ x ≡ escape_char d ++ y → (c ≡ d) × (x ≡ y)
unfolding escape_char
escape_char-cancel c d x y h = ground arith

escape_char-ne-nil : (c : ℕ) (x : Bytes) → ¬ (escape_char c ++ x ≡ [])
unfolding escape_char
escape_char-ne-nil c x h = ground arith

attr_escape-injective : (s t : Bytes) → attr_escape s ≡ attr_escape t → s ≡ t
unfolding attr_escape
attr_escape-injective [] [] h = refl
attr_escape-injective [] (d ∷ t) h = absurd (escape_char-ne-nil d (attr_escape t) (sym h))
attr_escape-injective (c ∷ s) [] h = absurd (escape_char-ne-nil c (attr_escape s) h)
attr_escape-injective (c ∷ s) (d ∷ t) h =
    let (same, rest) = escape_char-cancel c d _ _ h in
    ground (arith, same, attr_escape-injective s t rest)

-- An escaped text has no quote and no angle bracket, so that it does not end the attribute it is
-- written into, and it comes from one text only.
pub attr_escape_lem :
    (s : Bytes)
    → (is_inert (attr_escape s) ≡ true) × ((t : Bytes) → attr_escape s ≡ attr_escape t → s ≡ t)
attr_escape_lem s = (attr_escape-is_inert s, attr_escape-injective s)
