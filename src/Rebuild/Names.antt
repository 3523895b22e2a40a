-- ===== src/Rebuild/Names.antt =====
-- The names of the objects of a capture: `parse_object_key` of src/gnr/rebuild.py.
use grid_node_registry.Prelude.{
  ℕ, ◌+◌, ◌*◌, ◌-◌, ◌≤◌, ◌≡◌, ◌∙◌, ◌⊎◌, inl, inr, In, refl, arith, Bool, true, false, not, ◌≢◌,
  some, [], ◌∷◌, ◌++◌, Text, text_eq, nat_eq, ◌==◌, ==_refl, length, all,
}
use grid_node_registry.Text.{dot, ends_with, split, take}
use grid_node_registry.Alias.{last_word}
use grid_node_registry.Text.Laws.{
  Lacks, rsplit-append, rsplit_of_Lacks, split-append, split_of_Lacks,
}
use grid_node_registry.Sema.Format.{is_digit}
use grid_node_registry.Rebuild.{
  is_digits, digits_from, int_of, base_name, seq_of, parse_parts, json_suffix, parse_object_key,
}

-- ---- texts

ends_with-append : (l r : Text) → ends_with (l ++ r) r ≡ true
unfolding ends_with
ends_with-append [] [] = refl
ends_with-append [] (c ∷ r) = rw (==_refl (c ∷ r)) refl
ends_with-append (c ∷ l) r = ground (arith, ends_with-append l r)

take-append : (l r : Text) → take (length l) (l ++ r) ≡ l
unfolding take
take-append [] r = refl
take-append (c ∷ l) r = cc (take-append l r)

length-append : (l r : Text) → length (l ++ r) ≡ length l + length r
length-append [] r = omega arith
length-append (c ∷ l) r = ground (arith, length-append l r)

take_without : (l r : Text) (n : ℕ) → length r ≡ n → take (length (l ++ r) - n) (l ++ r) ≡ l
take_without l r n e =
    let k : length (l ++ r) - n ≡ length l = omega (arith, length-append l r, e) in
    rw k (take-append l r)

Lacks-append : (c : ℕ) (l r : Text) → Lacks c l → Lacks c r → Lacks c (l ++ r)
Lacks-append c [] r h k = k
Lacks-append c (d ∷ l) r h k = (h.0, Lacks-append c l r h.1 k)

clash : {b : Bool} → b ≡ true → b ≡ false → ⊥
clash p q = ground arith

digits-Lacks : (c : ℕ) (s : Text) → is_digit c ≡ false → all is_digit s ≡ true → Lacks c s
digits-Lacks c [] h k = tt
digits-Lacks c (d ∷ s) h k = (
  λ e. let q : is_digit d ≡ true = ground arith in clash (rw e at q) h,
  digits-Lacks c s h (ground arith),
)

pub Lacks-of : (c : ℕ) (s : Text) → all (λ d. not (d == c)) s ≡ true → Lacks c s
Lacks-of c [] h = tt
Lacks-of c (d ∷ s) h = (ground arith, Lacks-of c s (ground arith))

nonempty_digits : (s : Text) → is_digits s ≡ true → all is_digit s ≡ true
unfolding is_digits
nonempty_digits [] h = ground arith
nonempty_digits (c ∷ s) h = h

-- ---- names

abbrev pub dash : ℕ
dash = b'-'

abbrev pub slash : ℕ
slash = b'/'

dashed : dash ≢ slash
dashed e = omega arith

-- A part of a name: no dash, and no slash.
abbrev pub IsPart : Text → Type 0
IsPart s = Lacks dash s × Lacks slash s

abbrev stem : Text → Text → Text → Text → Text
stem from_alias type_name persisted source =
    from_alias ++ dash ∷ (type_name ++ dash ∷ (persisted ++ dash ∷ source))

-- The name that the ear gives to an object.
abbrev pub object_name : Text → Text → Text → Text → Text
object_name from_alias type_name persisted source =
    stem from_alias type_name persisted source ++ json_suffix

-- The keys of an object: its name, under any prefix.
pub data IsKeyOf (name : Text) : Text → Type 0 where
  flat : IsKeyOf name name
  under : (prefix : Text) → IsKeyOf name (prefix ++ slash ∷ name)

base_name-IsKeyOf : (name key : Text) → IsKeyOf name key → Lacks slash name → base_name key ≡ name
unfolding base_name
base_name-IsKeyOf name _ flat h = rw (rsplit_of_Lacks slash name h) refl
base_name-IsKeyOf name _ (under prefix) h = rw (rsplit-append slash prefix name h) refl

-- ---- numbers

-- The decimal numerals, leading zeros allowed, with their numbers.
pub data Numeral : Text → ℕ → Type 0 where
  digit : (d : ℕ) → d ≤ 9 → Numeral ((b'0' + d) ∷ []) d
  more : (s : Text) (n d : ℕ) → Numeral s n → d ≤ 9 → Numeral (s ++ (b'0' + d) ∷ []) (n * 10 + d)

-- A text that is no numeral.
abbrev pub IsWordy : Text → Type 0
IsWordy s = (s ≡ []) ⊎ ((c : ℕ) × In c s × (is_digit c ≡ false))

-- The arrival counter of a source: the numeral at the end of it, after the last dot if it has one, and 1
-- where no numeral stands there.
pub data Counts : Text → ℕ → Type 0 where
  numbered : (alias tail : Text) (n : ℕ) → Numeral tail n → Counts (alias ++ dot ∷ tail) n
  number_alone : (tail : Text) (n : ℕ) → Numeral tail n → Counts tail n
  named : (alias tail : Text) → Lacks dot tail → IsWordy tail → Counts (alias ++ dot ∷ tail) 1
  name_alone : (tail : Text) → Lacks dot tail → IsWordy tail → Counts tail 1

digit-is_digit : (d : ℕ) → d ≤ 9 → is_digit (b'0' + d) ≡ true
digit-is_digit d h = ground arith

all-append :
    (s : Text) (c : ℕ)
    → all is_digit s ≡ true
    → is_digit c ≡ true
    → all is_digit (s ++ c ∷ []) ≡ true
all-append [] c h k = rw k refl
all-append (d ∷ s) c h k = ground (arith, all-append s c)

nonempty_append :
    (s : Text) (c : ℕ) → all is_digit (s ++ c ∷ []) ≡ true → is_digits (s ++ c ∷ []) ≡ true
unfolding is_digits
nonempty_append [] c h = h
nonempty_append (d ∷ s) c h = h

Numeral-is_digits : (s : Text) (n : ℕ) → Numeral s n → is_digits s ≡ true
unfolding is_digits
Numeral-is_digits _ _ (digit d h) = rw (digit-is_digit d h) refl
Numeral-is_digits _ _ (more s n d k h) =
    nonempty_append s _
      (all-append s _ (nonempty_digits s (Numeral-is_digits s n k)) (digit-is_digit d h))

digits_from-append :
    (m c : ℕ) (s : Text) → digits_from m (s ++ c ∷ []) ≡ digits_from m s * 10 + (c - b'0')
digits_from-append m c [] = refl
digits_from-append m c (d ∷ s) = digits_from-append (m * 10 + (d - b'0')) c s

int_of-Numeral : (s : Text) (n : ℕ) → Numeral s n → int_of s ≡ n
unfolding int_of
int_of-Numeral _ _ (digit d h) = omega arith
int_of-Numeral _ _ (more s n d k h) =
    let e : digits_from 0 s ≡ n = int_of-Numeral s n k in
    digits_from-append 0 (b'0' + d) s ∙ rw e (omega arith)

wordy_all : (s : Text) (c : ℕ) → In c s → is_digit c ≡ false → all is_digit s ≡ false
wordy_all [] c i h = absurd i
wordy_all (d ∷ s) c (inl e) h = rw (← e, h) refl
wordy_all (d ∷ s) c (inr i) h = ground (arith, wordy_all s c i h)

IsWordy-is_digits : (s : Text) → IsWordy s → is_digits s ≡ false
unfolding is_digits
IsWordy-is_digits [] h = refl
IsWordy-is_digits (d ∷ s) (inl e) = cc e
IsWordy-is_digits (d ∷ s) (inr (c, i, h)) = wordy_all (d ∷ s) c i h

Numeral-last : (s : Text) (n : ℕ) → Numeral s n → Lacks dot s
Numeral-last s n k = digits-Lacks dot s refl (nonempty_digits s (Numeral-is_digits s n k))

seq_of-Counts : (source : Text) (n : ℕ) → Counts source n → seq_of source ≡ n
unfolding seq_of last_word
seq_of-Counts _ _ (numbered alias tail n k) =
    rw (rsplit-append dot alias tail (Numeral-last tail n k), Numeral-is_digits tail n k)
      (int_of-Numeral tail n k)
seq_of-Counts _ _ (number_alone tail n k) =
    rw (rsplit_of_Lacks dot tail (Numeral-last tail n k), Numeral-is_digits tail n k)
      (int_of-Numeral tail n k)
seq_of-Counts _ _ (named alias tail l h) =
    rw (rsplit-append dot alias tail l, IsWordy-is_digits tail h) refl
seq_of-Counts _ _ (name_alone tail l h) =
    rw (rsplit_of_Lacks dot tail l, IsWordy-is_digits tail h) refl

module _ (from_alias type_name persisted source : Text) (ha : IsPart from_alias)
    (ht : IsPart type_name) (hp : is_digits persisted ≡ true) (hs : IsPart source) where
  digits : (c : ℕ) → is_digit c ≡ false → Lacks c persisted
  digits c h = digits-Lacks c persisted h (nonempty_digits persisted hp)

  split-stem :
      split dash (stem from_alias type_name persisted source)
      ≡ from_alias ∷ type_name ∷ persisted ∷ source ∷ []
  split-stem =
      rw
        (
          split-append dash from_alias (type_name ++ dash ∷ (persisted ++ dash ∷ source)) ha.0,
          split-append dash type_name (persisted ++ dash ∷ source) ht.0,
          split-append dash persisted source (digits dash refl),
          split_of_Lacks dash source hs.0,
        )
        refl

  name-Lacks : Lacks slash (object_name from_alias type_name persisted source)
  unfolding nat_eq
  name-Lacks =
      Lacks-append slash (stem from_alias type_name persisted source) json_suffix
        (Lacks-append slash from_alias _ ha.1 (
          dashed,
          Lacks-append slash type_name _ ht.1
              (dashed, Lacks-append slash persisted _ (digits slash refl) (dashed, hs.1)),
        ))
        (Lacks-of slash json_suffix refl)

  parts_read :
      (key : Text)
      → IsKeyOf (object_name from_alias type_name persisted source) key
      → parse_object_key key
        ≡ some (record {
          key = key;
          type_name = type_name;
          persisted_ms = int_of persisted;
          seq = seq_of source;
        })
  unfolding parse_object_key parse_parts
  parts_read key k =
      rw
        (
          base_name-IsKeyOf (object_name from_alias type_name persisted source) key k name-Lacks,
          ends_with-append (stem from_alias type_name persisted source) json_suffix,
          take_without (stem from_alias type_name persisted source) json_suffix 5 refl,
          split-stem,
          hp,
        )
        refl

module _ (from_alias type_name persisted source : Text) (ms seq : ℕ) (ha : IsPart from_alias)
    (ht : IsPart type_name) (hp : Numeral persisted ms) (hs : IsPart source)
    (hc : Counts source seq) where
  -- The key of an object with a name of the ear's grammar, under any prefix, is read back as its type
  -- name, the number that its time is the numeral of, and the arrival counter of its source, where the
  -- parts of the name hold no dash and no slash.
  pub parse_object_key-object_name :
      (key : Text)
      → IsKeyOf (object_name from_alias type_name persisted source) key
      → parse_object_key key
        ≡ some (record { key = key; type_name = type_name; persisted_ms = ms; seq = seq })
  parse_object_key-object_name key k =
      parts_read from_alias type_name persisted source ha ht (Numeral-is_digits persisted ms hp) hs
        key k
      ∙ rw (int_of-Numeral persisted ms hp, seq_of-Counts source seq hc) refl
