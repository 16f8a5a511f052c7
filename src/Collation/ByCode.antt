-- ===== src/Collation/ByCode.antt =====
-- An order of texts by the codes of their characters: a collation that tells any two texts apart.
use Prim.Native.Char.{code}
use text.Mathlib.TextEquality.{Char-path}
use mcp_usage_control.Base.{
  List, refl, inl, inr, true, false, ltb, if◌then◌else◌, arith, ◌≡◌, ◌⊎◌, String, Bool,
}
use mcp_usage_control.Collation.{Collation, IsStrictOn}

unfoldable pub text_le : String → String → Bool
text_le String.[] t = true
text_le (String.◌∷◌ c s) String.[] = false
text_le (String.◌∷◌ c s) (String.◌∷◌ d t) =
    if ltb (code c) (code d) then true else if ltb (code d) (code c) then false else text_le s t

pub text_le_total : (a b : String) → (text_le a b ≡ true) ⊎ (text_le b a ≡ true)
unfolding text_le
text_le_total String.[] b = inl refl
text_le_total (String.◌∷◌ c s) String.[] = inr refl
text_le_total (String.◌∷◌ c s) (String.◌∷◌ d t) =
    let later = text_le_total s t in ground (arith, later)

pub text_le_trans : (a b c : String) → text_le a b ≡ true → text_le b c ≡ true → text_le a c ≡ true
unfolding text_le
text_le_trans String.[] b c h k = refl
text_le_trans (String.◌∷◌ x s) String.[] c h k = cc
text_le_trans (String.◌∷◌ x s) (String.◌∷◌ y t) String.[] h k = cc
text_le_trans (String.◌∷◌ x s) (String.◌∷◌ y t) (String.◌∷◌ z u) h k =
    let later = text_le_trans s t u in ground (arith, later)

instance abbrev pub by_code : Collation
by_code = record { le = text_le; le_total = text_le_total; le_trans = text_le_trans }

by_code_antisym : (a b : String) → text_le a b ≡ true → text_le b a ≡ true → a ≡ b
unfolding text_le
by_code_antisym String.[] String.[] h k = refl
by_code_antisym String.[] (String.◌∷◌ d t) h k = cc
by_code_antisym (String.◌∷◌ c s) String.[] h k = cc
by_code_antisym (String.◌∷◌ c s) (String.◌∷◌ d t) h k =
    let same : code c ≡ code d = ground arith in
    let later : s ≡ t = by_code_antisym s t (ground arith) (ground arith) in
    rw (Char-path c d same, later) refl

pub by_code-IsStrictOn : (ks : List String) → IsStrictOn by_code ks
by_code-IsStrictOn ks a b in_a in_b = by_code_antisym a b
