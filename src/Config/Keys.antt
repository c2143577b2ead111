-- ===== src/Config/Keys.antt =====
-- The names of values in common/gdm-settings-desktop-backend.c, `group/key[locale]=value`: every name
-- that is put together is taken apart into its parts.
use gdm.Base.{
  ℕ, suc, ◌+◌, ◌-◌, ◌≡◌, refl, ap, Option, none, some, true, false, [], ◌∷◌, ◌++◌, ltb, arith,
  Bytes, Lacks, length, take, drop, split_once, index_of, split_once-at, split_once_whole,
  index_of-none,
}
use mathlib.Core.List.{append-nil}
use gdm.Config.Values.{is_empty}
use gdm.Config.KeyFile.{KeyParts, parse_key_string, parts_of, trim_locale}

abbrev pub print_locale : Option Bytes → Bytes
print_locale none = []
print_locale (some l) = b'[' ∷ (l ++ b']' ∷ [])

abbrev pub print_value : Option Bytes → Bytes
print_value none = []
print_value (some v) = b'=' ∷ v

pub print_key : KeyParts → Bytes
print_key p = p.group ++ b'/' ∷ ((p.key ++ print_locale p.locale) ++ print_value p.value)

abbrev pub IsLocale : Option Bytes → Type 0
IsLocale none = Unit {0}
IsLocale (some l) = Lacks b'=' l × Lacks b']' l

-- No part holds the marks that end it.
pub record IsName (p : KeyParts) : Type 0 where
  pub some_group : is_empty p.group ≡ false
  pub one_group : Lacks b'/' p.group
  pub some_key : is_empty p.key ≡ false
  pub no_value : Lacks b'=' p.key
  pub no_opening : Lacks b'[' p.key
  pub no_closing : Lacks b']' p.key
  pub locale_is_name : IsLocale p.locale

Lacks-append : (c : ℕ) (xs ys : Bytes) → Lacks c xs → Lacks c ys → Lacks c (xs ++ ys)
Lacks-append c [] ys h k = k
Lacks-append c (x ∷ xs) ys h k = (h.0, Lacks-append c xs ys h.1 k)

index_of-at : (c : ℕ) (xs ys : Bytes) → Lacks c xs → index_of c (xs ++ c ∷ ys) ≡ some (length xs)
index_of-at c [] ys h = ground arith
index_of-at c (x ∷ xs) ys h = ground (arith, index_of-at c xs ys h.1)

take-append : (xs ys : Bytes) → take (length xs) (xs ++ ys) ≡ xs
take-append [] ys = refl
take-append (x ∷ xs) ys = ap (λ (t : Bytes). x ∷ t) (take-append xs ys)

drop-append : (xs ys : Bytes) → drop (length xs) (xs ++ ys) ≡ ys
drop-append [] ys = refl
drop-append (x ∷ xs) ys = drop-append xs ys

drop_past : (xs : Bytes) (c : ℕ) (ys : Bytes) → drop (length xs + 1) (xs ++ c ∷ ys) ≡ ys
drop_past [] c ys = refl
drop_past (x ∷ xs) c ys = ground (arith, drop_past xs c ys)

index_of-after :
    (c n : ℕ) (xs ys : Bytes)
    → Lacks c xs
    → index_of c ys ≡ some n
    → index_of c (xs ++ ys) ≡ some (length xs + n)
index_of-after c n [] ys h e = ground (arith, e)
index_of-after c n (x ∷ xs) ys h e = ground (arith, index_of-after c n xs ys h.1 e)

-- The locale is found where it was put.
trim_printed :
    (k : Bytes) (l : Option Bytes)
    → Lacks b'[' k
    → Lacks b']' k
    → IsLocale l
    → trim_locale
        (k ++ print_locale l)
        (index_of b'[' (k ++ print_locale l))
        (index_of b']' (k ++ print_locale l))
      ≡ (k, l)
trim_printed k none a b h = rw (append-nil, index_of-none b'[' k a)
trim_printed k (some l) a b h = rw (
  index_of-at b'[' k (l ++ b']' ∷ []) a,
  index_of-after b']' (suc (length l)) k (b'[' ∷ (l ++ b']' ∷ [])) b closing,
  take-append k (b'[' ∷ (l ++ b']' ∷ [])),
  drop_past k b'[' (l ++ b']' ∷ []),
  before,
  between,
  take-append l (b']' ∷ []),
)
  where
    closing : index_of b']' (b'[' ∷ (l ++ b']' ∷ [])) ≡ some (suc (length l))
    closing = ground (arith, index_of-at b']' l [] h.1)

    before : ltb (length k) (length k + suc (length l)) ≡ true
    before = ground arith

    between : length k + suc (length l) - length k - 1 ≡ length l
    between = omega arith

-- The key and its locale hold no mark of a value.
name-Lacks :
    (k : Bytes) (l : Option Bytes) → Lacks b'=' k → IsLocale l → Lacks b'=' (k ++ print_locale l)
name-Lacks k none a h = Lacks-append b'=' k [] a tt
name-Lacks k (some l) a h =
    Lacks-append b'=' k (b'[' ∷ (l ++ b']' ∷ [])) a
      (refl, Lacks-append b'=' l (b']' ∷ []) h.0 (refl, tt))

split_printed :
    (name : Bytes) (v : Option Bytes)
    → Lacks b'=' name
    → split_once b'=' (name ++ print_value v) ≡ (name, v)
split_printed name none h = rw append-nil (split_once_whole b'=' name h)
split_printed name (some v) h = split_once-at b'=' name v h

parts_of-print :
    (p : KeyParts)
    → IsName p
    → parts_of p.group ((p.key ++ print_locale p.locale) ++ print_value p.value) ≡ p
parts_of-print p n = rw (
  split_printed (p.key ++ print_locale p.locale) p.value
      (name-Lacks p.key p.locale n.no_value n.locale_is_name),
  trim_printed p.key p.locale n.no_opening n.no_closing n.locale_is_name,
)

nonempty-append : (xs ys zs : Bytes) → is_empty xs ≡ false → is_empty ((xs ++ ys) ++ zs) ≡ false
nonempty-append [] ys zs h = cc
nonempty-append (x ∷ xs) ys zs h = refl

-- A name that is put together from parts, of which none holds the marks that end it, is taken apart
-- into the same parts.
pub parse_key_string-print_key : (p : KeyParts) → IsName p → parse_key_string (print_key p) ≡ some p
unfolding parse_key_string print_key
parse_key_string-print_key p n =
    rw
      (
        split_once-at b'/' p.group ((p.key ++ print_locale p.locale) ++ print_value p.value)
            n.one_group,
        n.some_group,
        nonempty-append p.key (print_locale p.locale) (print_value p.value) n.some_key,
      )
      (ap some (parts_of-print p n))
