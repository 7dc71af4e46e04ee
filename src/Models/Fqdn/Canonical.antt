-- ===== src/Models/Fqdn/Canonical.antt =====
-- The names that `NewFqdn` accepts, and the form in which it keeps them.
use alibaba_ati_golang_sdk.Base.{
  ℕ, ◌≡◌, ◌≤◌, refl, ◌∙◌, ap, true, false, ◌||◌, List, [], ◌∷◌, map, Bytes, ◌==◌, if◌then◌else◌, ok,
  to_lower, lower_byte, to_lower_idem, all, All, arith, length, ◌≢◌, ◌⊎◌, inl, inr,
}
use alibaba_ati_golang_sdk.Base.Split.{split, trim_suffix, cons_head}
use alibaba_ati_golang_sdk.Models.Fqdn.{
  Fqdn, is_valid_label_char, starts_with_hyphen, ends_with_hyphen, check_label, check_labels,
  new_fqdn,
}

-- A label: 1 to 63 letters, digits and hyphens, with no hyphen at either end.
pub record IsLabel (l : Bytes) : Type 0 where
  pub some_byte : 1 ≤ length l
  pub short : length l ≤ 63
  pub chars : all is_valid_label_char l ≡ true
  pub edges : (starts_with_hyphen l || ends_with_hyphen l) ≡ false

pub check_label_iff :
    (l : Bytes) → (check_label l ≡ ok tt → IsLabel l) × (IsLabel l → check_label l ≡ ok tt)
unfolding check_label
check_label_iff [] = (λ h. cc, λ h. absurd (omega (arith, h.some_byte)))
check_label_iff (c ∷ cs) = (
  λ h. record {
    some_byte = omega arith;
    short = ground arith;
    chars = ground arith;
    edges = ground arith;
  },
  λ h. ground (arith, h.short, h.chars, h.edges),
)

pub check_labels_iff :
    (ls : List Bytes)
    → (check_labels ls ≡ ok tt → All IsLabel ls) × (All IsLabel ls → check_labels ls ≡ ok tt)
unfolding check_labels
check_labels_iff [] = (λ h. tt, λ h. refl)
check_labels_iff (l ∷ ls) = (
  λ h. ground (arith, (check_label_iff l).0, (check_labels_iff ls).0),
  λ h. ground (arith, (check_label_iff l).1, (check_labels_iff ls).1),
)

lower_dot : (x : ℕ) → (lower_byte x == b'.') ≡ (x == b'.')
unfolding lower_byte
lower_dot x = ground arith

lower-cons_head :
    (x : ℕ) (ps : List Bytes)
    → cons_head (lower_byte x) (map to_lower ps) ≡ map to_lower (cons_head x ps)
unfolding to_lower
lower-cons_head x [] = refl
lower-cons_head x (p ∷ ps) = refl

-- Lower case splits into the lower case of the labels.
pub split-to_lower : (s : Bytes) → split b'.' (to_lower s) ≡ map to_lower (split b'.' s)
unfolding split to_lower
split-to_lower [] = refl
split-to_lower (x ∷ xs) =
    ground (arith, lower_dot x, split-to_lower xs, lower-cons_head x (split b'.' xs))

lower_valid :
    (l : Bytes) → all is_valid_label_char l ≡ true → all is_valid_label_char (to_lower l) ≡ true
unfolding to_lower lower_byte
lower_valid [] h = refl
lower_valid (c ∷ cs) h = ground (arith, lower_valid cs)

lower_ends : (l : Bytes) → ends_with_hyphen (to_lower l) ≡ ends_with_hyphen l
unfolding to_lower lower_byte
lower_ends [] = refl
lower_ends (c ∷ []) = ground arith
lower_ends (c ∷ d ∷ cs) = lower_ends (d ∷ cs)

lower_starts : (l : Bytes) → starts_with_hyphen (to_lower l) ≡ starts_with_hyphen l
unfolding to_lower lower_byte
lower_starts [] = refl
lower_starts (c ∷ cs) = ground arith

length-to_lower : (l : Bytes) → length (to_lower l) ≡ length l
unfolding to_lower
length-to_lower [] = refl
length-to_lower (c ∷ cs) = omega (arith, length-to_lower cs)

pub to_lower-IsLabel : (l : Bytes) → IsLabel l → IsLabel (to_lower l)
to_lower-IsLabel l h = record {
  some_byte = rw (length-to_lower l) h.some_byte;
  short = rw (length-to_lower l) h.short;
  chars = lower_valid l h.chars;
  edges = rw (lower_starts l, lower_ends l) h.edges;
}

to_lower-All : (ls : List Bytes) → All IsLabel ls → All IsLabel (map to_lower ls)
to_lower-All [] h = tt
to_lower-All (l ∷ ls) (h, hs) = (to_lower-IsLabel l h, to_lower-All ls hs)

-- The last part of a split name.
abbrev last_label : List Bytes → Bytes
last_label [] = []
last_label (l ∷ []) = l
last_label (l ∷ m ∷ ls) = last_label (m ∷ ls)

split-ne-nil : (s : Bytes) → split b'.' s ≢ []
unfolding split
split-ne-nil [] h = cc
split-ne-nil (x ∷ xs) h = step (split b'.' xs) h
  where
    step : (ls : List Bytes) → (if x == b'.' then [] ∷ ls else cons_head x ls) ≢ []
    step [] k = ground arith
    step (p ∷ ps) k = ground arith

split-ne-empty : (x : ℕ) (s : Bytes) → split b'.' (x ∷ s) ≢ [] ∷ []
unfolding split
split-ne-empty x s h = step (split b'.' s) (split-ne-nil s) h
  where
    step : (ls : List Bytes) → ls ≢ [] → (if x == b'.' then [] ∷ ls else cons_head x ls) ≢ [] ∷ []
    step [] n k = n refl
    step (p ∷ ps) n k = ground arith

last_step :
    (x : ℕ) (ls : List Bytes)
    → ls ≢ []
    → ls ≢ [] ∷ []
    → last_label ls ≡ []
    → last_label (if x == b'.' then [] ∷ ls else cons_head x ls) ≡ []
last_step x [] n m h = absurd (n refl)
last_step x ([] ∷ []) n m h = absurd (m refl)
last_step x ((y ∷ p) ∷ []) n m h = cc
last_step x (p ∷ q ∷ qs) n m h = ground arith

-- Either nothing is trimmed, or the name ends in an empty label.
trim-or-empty : (s : Bytes) → (trim_suffix b'.' s ≡ s) ⊎ (last_label (split b'.' s) ≡ [])
unfolding trim_suffix
trim-or-empty [] = inl refl
trim-or-empty (x ∷ []) = unfold split in ground arith
trim-or-empty (x ∷ y ∷ r) = elim (trim-or-empty (y ∷ r)) [
  | inl e ↦ inl (ap (◌∷◌ x) e)
  | inr e ↦ inr (
      unfold split in
      last_step x (split b'.' (y ∷ r)) (split-ne-nil (y ∷ r)) (split-ne-empty y r) e)
]

last-IsLabel : (ls : List Bytes) → ls ≢ [] → All IsLabel ls → IsLabel (last_label ls)
last-IsLabel [] n h = absurd (n refl)
last-IsLabel (l ∷ []) n (h, _) = h
last-IsLabel (l ∷ m ∷ ls) n (_, h) = last-IsLabel (m ∷ ls) (λ e. cc) h

trim-labels : (s : Bytes) → All IsLabel (split b'.' s) → trim_suffix b'.' s ≡ s
trim-labels s h = elim (trim-or-empty s) [
  | inl e ↦ e
  | inr e ↦
      let l : IsLabel [] = rw e at (last-IsLabel (split b'.' s) (split-ne-nil s) h) in
      absurd (omega (arith, l.some_byte))
]

-- What `new_fqdn` keeps: labels, in lower case.
pub record IsCanonical (f : Fqdn) : Type 0 where
  pub labels : All IsLabel (split b'.' f.value)
  pub lower : to_lower f.value ≡ f.value

accepted :
    (c : ℕ) (cs : Bytes) (f : Fqdn)
    → new_fqdn (c ∷ cs) ≡ ok f
    → (check_labels (split b'.' (trim_suffix b'.' (c ∷ cs))) ≡ ok tt)
      × (to_lower (trim_suffix b'.' (c ∷ cs)) ≡ f.value)
unfolding new_fqdn
accepted c cs f h = (ground arith, ground arith)

-- Every name that `NewFqdn` returns is made of labels and in lower case.
pub new_fqdn-IsCanonical : (s : Bytes) (f : Fqdn) → new_fqdn s ≡ ok f → IsCanonical f
new_fqdn-IsCanonical [] f h = unfold new_fqdn in cc
new_fqdn-IsCanonical (c ∷ cs) f h =
    let (l, e) = accepted c cs f h in
    let t = trim_suffix b'.' (c ∷ cs) in
    record {
      labels =
          rw (← e, split-to_lower t)
            (to_lower-All (split b'.' t) ((check_labels_iff (split b'.' t)).0 l));
      lower = rw (← e) (to_lower_idem t);
    }

returned :
    (c : ℕ) (cs : Bytes)
    → check_labels (split b'.' (trim_suffix b'.' (c ∷ cs))) ≡ ok tt
    → new_fqdn (c ∷ cs) ≡ ok (record { value = to_lower (trim_suffix b'.' (c ∷ cs)) })
unfolding new_fqdn
returned c cs h = ground arith

-- Every sequence of labels is accepted, and what is kept is its lower case.
pub new_fqdn_of_labels :
    (s : Bytes) → All IsLabel (split b'.' s) → new_fqdn s ≡ ok (record { value = to_lower s })
new_fqdn_of_labels [] h = unfold split in absurd (omega (arith, h.0.some_byte))
new_fqdn_of_labels (c ∷ cs) h =
    let e : trim_suffix b'.' (c ∷ cs) ≡ c ∷ cs = trim-labels (c ∷ cs) h in
    let r = returned c cs (rw e ((check_labels_iff (split b'.' (c ∷ cs))).1 h)) in
    r ∙ ap (λ t. ok (record { value = to_lower t })) e

-- Every name that `NewFqdn` returns is made of labels of 1 to 63 letters, digits and hyphens with no
-- hyphen at an end, is in lower case, and is returned again, unchanged, when its text is validated again.
pub new_fqdn_twice :
    (s : Bytes) (f : Fqdn) → new_fqdn s ≡ ok f → IsCanonical f × (new_fqdn f.value ≡ ok f)
new_fqdn_twice s f h =
    let k = new_fqdn-IsCanonical s f h in
    (k, new_fqdn_of_labels f.value k.labels ∙ ap (λ t. ok (record { value = t })) k.lower)
