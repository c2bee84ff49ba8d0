-- ===== src/Chunking/Strip.antt =====
-- chunking.py: what `str.strip` keeps of a text, of its pieces and of its length.
use Prim.Native.Char.{Char, code}
use Prim.Native.String
use text.Mathlib.TextLemmas.{nil-append, cons-append, append_assoc, append-eq-nil_iff, cons-ne-nil}
use memoratum.Base.{
  ℕ, zero, suc, ◌+◌, ◌-◌, ◌≤◌, String, Bool, true, false, ◌&&◌, ◌==◌, ◌≡◌, ◌≢◌, refl, sym, ap, ◌∙◌,
  eq_iff, arith, Bool-cases, inl, inr, is_space, lstrip, rstrip, strip, len,
}
use memoratum.Chunking.{drop_text}

-- The text `c` stands in the text `t`, character by character.
abbrev pub IsWithin : String → String → Type 0
IsWithin c t = (a b : String) × (t ≡ String.◌++◌ a (String.◌++◌ c b))

infixr 60 ◌++ˢ◌
abbrev pub ◌++ˢ◌ : String → String → String
s ++ˢ t = String.◌++◌ s t

lstrip_space :
    (c : Char) (s : String) → is_space (code c) ≡ true → lstrip (String.◌∷◌ c s) ≡ lstrip s
unfolding lstrip
lstrip_space c s e = rw e

lstrip_text :
    (c : Char) (s : String) → is_space (code c) ≡ false → lstrip (String.◌∷◌ c s) ≡ String.◌∷◌ c s
unfolding lstrip
lstrip_text c s e = rw e

lstrip_nil : lstrip "" ≡ ""
unfolding lstrip
lstrip_nil = refl

rstrip_nil : rstrip "" ≡ ""
unfolding rstrip
rstrip_nil = refl

rstrip_space :
    (c : Char) (s : String)
    → ((rstrip s == "") && is_space (code c)) ≡ true
    → rstrip (String.◌∷◌ c s) ≡ ""
unfolding rstrip
rstrip_space c s e = rw e

rstrip_text :
    (c : Char) (s : String)
    → ((rstrip s == "") && is_space (code c)) ≡ false
    → rstrip (String.◌∷◌ c s) ≡ String.◌∷◌ c (rstrip s)
unfolding rstrip
rstrip_text c s e = rw e

pub lstrip-IsSuffix : (s : String) → (a : String) × (s ≡ a ++ˢ lstrip s)
lstrip-IsSuffix String.[] = ("", cc (nil-append (lstrip ""), lstrip_nil))
lstrip-IsSuffix (String.◌∷◌ c s) = elim (Bool-cases (is_space (code c))) [
  | inl e ↦
      let (a, h) = lstrip-IsSuffix s in
      (String.◌∷◌ c a, cc (h, cons-append c a (lstrip s), lstrip_space c s e))
  | inr e ↦ ("", cc (nil-append (lstrip (String.◌∷◌ c s)), lstrip_text c s e))
]

pub rstrip-IsPrefix : (s : String) → (b : String) × (s ≡ rstrip s ++ˢ b)
rstrip-IsPrefix String.[] = ("", cc (nil-append "", rstrip_nil))
rstrip-IsPrefix (String.◌∷◌ c s) = elim (Bool-cases ((rstrip s == "") && is_space (code c))) [
  | inl e ↦ (String.◌∷◌ c s, cc (rstrip_space c s e, nil-append (String.◌∷◌ c s)))
  | inr e ↦
      let (b, h) = rstrip-IsPrefix s in (b, cc (h, rstrip_text c s e, cons-append c (rstrip s) b))
]

pub strip-IsWithin : (s : String) → IsWithin (strip s) s
unfolding strip
strip-IsWithin s =
    let (a, h) = lstrip-IsSuffix s in let (b, k) = rstrip-IsPrefix (lstrip s) in (a, b, cc (h, k))

pub drop_text-IsSuffix : (n : ℕ) (s : String) → (a : String) × (s ≡ a ++ˢ drop_text n s)
unfolding drop_text
drop_text-IsSuffix zero s = ("", sym (nil-append s))
drop_text-IsSuffix (suc n) String.[] = ("", sym (nil-append ""))
drop_text-IsSuffix (suc n) (String.◌∷◌ c s) =
    let (a, h) = drop_text-IsSuffix n s in (String.◌∷◌ c a, cc (h, cons-append c a (drop_text n s)))

pub IsWithin-trans : (a b c : String) → IsWithin a b → IsWithin b c → IsWithin a c
IsWithin-trans a b c (p, q, h) (r, t, k) = (
  r ++ˢ p,
  q ++ˢ t,
  cc (h, k, append_assoc r p (a ++ˢ (q ++ˢ t)), append_assoc p (a ++ˢ q) t, append_assoc a q t),
)

nil-IsWithin : (c t : String) → c ≡ "" → IsWithin c t
nil-IsWithin c t e = ("", t, cc (e, nil-append t))

-- What the text in front leaves behind stays in front.
lstrip-append : (a s : String) → (b : String) × (lstrip (a ++ˢ s) ≡ b ++ˢ lstrip s)
lstrip-append String.[] s = ("", cc (nil-append s, nil-append (lstrip s)))
lstrip-append (String.◌∷◌ c a) s = elim (Bool-cases (is_space (code c))) [
  | inl e ↦
      let (b, h) = lstrip-append a s in (b, cc (h, cons-append c a s, lstrip_space c (a ++ˢ s) e))
  | inr e ↦
      let (b, h) = lstrip-IsSuffix s in
      (
        String.◌∷◌ c a ++ˢ b,
        cc (
          h,
          cons-append c a s,
          lstrip_text c (a ++ˢ s) e,
          append_assoc (String.◌∷◌ c a) b (lstrip s),
        ),
      )
]

lstrip-append_text : (s b : String) → lstrip s ≢ "" → lstrip (s ++ˢ b) ≡ lstrip s ++ˢ b
lstrip-append_text String.[] b h = absurd (h lstrip_nil)
lstrip-append_text (String.◌∷◌ c s) b h = elim (Bool-cases (is_space (code c))) [
  | inl e ↦ cc (
    cons-append c s b,
    lstrip_space c (s ++ˢ b) e,
    lstrip_space c s e,
    lstrip-append_text s b (λ z. h (lstrip_space c s e ∙ z)),
  )
  | inr e ↦ cc (cons-append c s b, lstrip_text c (s ++ˢ b) e, lstrip_text c s e)
]

append_blank : (x y : String) (w : Bool) → ((x == "") && w) ≡ false → ((x ++ˢ y == "") && w) ≡ false
append_blank x y w h = elim (Bool-cases w) [
  | inl e ↦
      ground (arith, h, e, eq_iff x "", eq_iff (x ++ˢ y) "", append-eq-nil_iff {p = x} {q = y})
  | inr e ↦ ground (arith, e)
]

rstrip-append : (s b : String) → (c : String) × (rstrip (s ++ˢ b) ≡ rstrip s ++ˢ c)
rstrip-append String.[] b = (rstrip b, cc (nil-append b, rstrip_nil, nil-append (rstrip b)))
rstrip-append (String.◌∷◌ d s) b = elim (Bool-cases ((rstrip s == "") && is_space (code d))) [
  | inl e ↦
      let whole = rstrip (String.◌∷◌ d s ++ˢ b) in
      (whole, cc (rstrip_space d s e, nil-append whole))
  | inr e ↦
      let (c, h) = rstrip-append s b in
      (
        c,
        cc (
          h,
          cons-append d s b,
          rstrip_text d s e,
          cons-append d (rstrip s) c,
          rstrip_text d (s ++ˢ b) (
              ap (λ t. (t == "") && is_space (code d)) h
              ∙ append_blank (rstrip s) c (is_space (code d)) e),
        ),
      )
]

not_blank : (x : String) (w : Bool) → x ≢ "" → ((x == "") && w) ≡ false
not_blank x w h = ground (arith, h, eq_iff x "")

rstrip-append_text : (a s : String) → rstrip s ≢ "" → rstrip (a ++ˢ s) ≡ a ++ˢ rstrip s
rstrip-append_text String.[] s h = cc (nil-append s, nil-append (rstrip s))
rstrip-append_text (String.◌∷◌ c a) s h =
    let k = rstrip-append_text a s h in
    cc (
      k,
      cons-append c a s,
      cons-append c a (rstrip s),
      rstrip_text c (a ++ˢ s) (
          not_blank (rstrip (a ++ˢ s)) (is_space (code c))
            (λ z. h ((append-eq-nil_iff {p = a} {q = rstrip s}).0 (sym k ∙ z)).1)),
    )

-- A piece that is not blank survives, stripped, whatever stands around it.
pub strip-IsWithin_append :
    (a s b : String) → strip s ≢ "" → IsWithin (strip s) (strip (a ++ˢ (s ++ˢ b)))
unfolding strip
strip-IsWithin_append a s b h =
    let core = lstrip s in
    let (p, front) = lstrip-append a (s ++ˢ b) in
    let inner = lstrip-append_text s b (λ z. h (ap rstrip z ∙ rstrip_nil)) in
    let (q, behind) = rstrip-append (p ++ˢ core) b in
    let kept = rstrip-append_text p core h in
    (p, q, cc (front, inner, behind, kept, append_assoc p core b, append_assoc p (rstrip core) q))

-- A blank text in front is stripped away.
lstrip-append_blank : (s u : String) → strip s ≡ "" → lstrip (s ++ˢ u) ≡ lstrip u
unfolding strip
lstrip-append_blank String.[] u h = cc (nil-append u)
lstrip-append_blank (String.◌∷◌ c s) u h = elim (Bool-cases (is_space (code c))) [
  | inl e ↦ cc (
    cons-append c s u,
    lstrip_space c (s ++ˢ u) e,
    lstrip-append_blank s u (ap rstrip (sym (lstrip_space c s e)) ∙ h),
  )
  | inr e ↦ absurd (
      cons-ne-nil c (rstrip s)
        (sym (rstrip_text c s (ground (arith, e))) ∙ ap rstrip (sym (lstrip_text c s e)) ∙ h))
]

pub strip-append_blank : (s u : String) → strip s ≡ "" → strip (s ++ˢ u) ≡ strip u
unfolding strip
strip-append_blank s u h = ap rstrip (lstrip-append_blank s u h)

pub len-append : (s t : String) → len (s ++ˢ t) ≡ len s + len t
unfolding len
len-append String.[] t = omega (arith, ap len (nil-append t))
len-append (String.◌∷◌ c s) t = rw (cons-append c s t) (omega (arith, len-append s t))

pub len-drop_text : (n : ℕ) (s : String) → len (drop_text n s) ≤ len s - n
unfolding len drop_text
len-drop_text zero s = ground arith
len-drop_text (suc n) String.[] = ground arith
len-drop_text (suc n) (String.◌∷◌ c s) = omega (arith, len-drop_text n s)

pub len-strip : (s : String) → len (strip s) ≤ len s
len-strip s =
    let (a, b, h) = strip-IsWithin s in
    omega (arith, ap len h, len-append a (strip s ++ˢ b), len-append (strip s) b)
