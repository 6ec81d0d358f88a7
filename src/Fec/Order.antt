-- ===== src/Fec/Order.antt =====
-- What the order in which a map holds its entries does not change.
use mathlib.Core.List.{Permᴰ}
use jamjam_client.Bits.{bit_xor_comm, bit_xor_assoc}
use jamjam_client.Prelude.{
  ℕ, bit_xor, ◌≡◌, refl, sym, ◌∙◌, ap, ap₂, Bool, false, ◌||◌, List, [], ◌∷◌, arith, ◌==◌, length,
  get_or,
}
use jamjam_client.Prelude.Assoc.{contains_key}
use jamjam_client.Fec.Columns.{column, bodies, AllWithin}

pub left_comm : (a b c : ℕ) → bit_xor a (bit_xor b c) ≡ bit_xor b (bit_xor a c)
left_comm a b c =
    sym (bit_xor_assoc a b c) ∙ ap (λ t. bit_xor t c) (bit_xor_comm a b) ∙ bit_xor_assoc b a c

abbrev pub Entry : Type 0
Entry = ℕ × List ℕ

pub column-perm :
    (i : ℕ) {es fs : List Entry} → Permᴰ es fs → column i (bodies es) ≡ column i (bodies fs)
column-perm i Permᴰ.nil = refl
column-perm i (Permᴰ.cons e p) = ap₂ bit_xor (ap (λ t. get_or t.1 i 0) e) (column-perm i p)
column-perm i (Permᴰ.swap {a} {b} {l = l} e f) =
    left_comm (get_or a.1 i 0) (get_or b.1 i 0) (column i (bodies l))
    ∙ ap₂ (λ s t. bit_xor (get_or s.1 i 0) (bit_xor (get_or t.1 i 0) (column i (bodies l)))) f e
column-perm i (Permᴰ.trans p q) = column-perm i p ∙ column-perm i q

or_comm : (a b c : Bool) → (a || (b || c)) ≡ (b || (a || c))
or_comm a b c = ground arith

pub contains_key-perm :
    (k : ℕ) {es fs : List Entry} → Permᴰ es fs → contains_key k es ≡ contains_key k fs
unfolding contains_key
contains_key-perm k Permᴰ.nil = refl
contains_key-perm k (Permᴰ.cons e p) = ap₂ ◌||◌ (ap (λ t. t.0 == k) e) (contains_key-perm k p)
contains_key-perm k (Permᴰ.swap {a} {b} {l = l} e f) =
    or_comm (a.0 == k) (b.0 == k) (contains_key k l)
    ∙ ap₂ (λ s t. (s.0 == k) || ((t.0 == k) || contains_key k l)) f e
contains_key-perm k (Permᴰ.trans p q) = contains_key-perm k p ∙ contains_key-perm k q

pub length-perm : {es fs : List Entry} → Permᴰ es fs → length es ≡ length fs
length-perm Permᴰ.nil = refl
length-perm (Permᴰ.cons e p) = omega (arith, length-perm p)
length-perm (Permᴰ.swap e f) = refl
length-perm (Permᴰ.trans p q) = length-perm p ∙ length-perm q

pub AllWithin-perm :
    (n : ℕ) {es fs : List Entry} → Permᴰ es fs → AllWithin n (bodies fs) → AllWithin n (bodies es)
AllWithin-perm n Permᴰ.nil w = w
AllWithin-perm n (Permᴰ.cons e p) w =
    (omega (arith, ap (λ t. length t.1) e), AllWithin-perm n p w.1)
AllWithin-perm n (Permᴰ.swap e f) w =
    (omega (arith, ap (λ t. length t.1) e), (omega (arith, ap (λ t. length t.1) f), w.1.1))
AllWithin-perm n (Permᴰ.trans p q) w = AllWithin-perm n p (AllWithin-perm n q w)

-- No index has two entries.
abbrev pub Distinct : List Entry → Type 0
Distinct [] = Unit
Distinct (e ∷ es) = (contains_key e.0 es ≡ false) × Distinct es

pub Distinct-perm : {es fs : List Entry} → Permᴰ es fs → Distinct fs → Distinct es
unfolding contains_key
Distinct-perm Permᴰ.nil d = d
Distinct-perm (Permᴰ.cons {l₁ = l} e p) d =
    (ap (λ t. contains_key t.0 l) e ∙ contains_key-perm _ p ∙ d.0, Distinct-perm p d.1)
Distinct-perm (Permᴰ.swap {a} {b} {l = l} e f) d =
    let e' = ap (λ t. t.0) e in
    let f' = ap (λ t. t.0) f in
    (ground (arith, e', f', d.0, d.1.0), (ground (arith, e', f', d.0, d.1.0), d.1.1))
Distinct-perm (Permᴰ.trans p q) d = Distinct-perm p (Distinct-perm q d)
