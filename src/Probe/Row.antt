-- ===== src/Probe/Row.antt =====
-- The rows that TTM50/EXAMPLES/PROBE.C prints.
use ttm.Prelude.{
  ℕ, zero, suc, ◌+◌, ◌/◌, ◌%◌, ◌<◌, ◌≤◌, ◌≡◌, refl, sym, ◌∙◌, ap, Bool, true, false, ◌&&◌, ◌-◌,
  List, [], ◌∷◌, ◌++◌, arith, All, leb, ltb, codes, length, take, drop, replicate, get_or,
  length-append, length-overwrite, if◌then◌else◌, overwrite,
}
use ttm.Scsi.{Command}
use ttm.Scsi.Inquiry.{Inquiry, of_bytes}
use ttm.Probe.{
  device_type, is_print, print_data, digit, max_device_type, hex_digit, padded, type_text, row,
  inquiry_data, newline, space,
}

unfoldable pub are_printable : List ℕ → Bool
unfolding is_print
are_printable [] = true
are_printable (c ∷ cs) = is_print c && are_printable cs

are_printable-append :
    (xs ys : List ℕ)
    → are_printable xs ≡ true
    → are_printable ys ≡ true
    → are_printable (xs ++ ys) ≡ true
unfolding are_printable
are_printable-append [] ys h k = k
are_printable-append (x ∷ xs) ys h k =
    let e = are_printable-append xs ys (ground arith) k in ground arith

length-take-drop : (m n : ℕ) (xs : List ℕ) → m + n ≤ length xs → length (take n (drop m xs)) ≡ n
length-take-drop zero zero xs h = refl
length-take-drop zero (suc n) [] h = omega arith
length-take-drop zero (suc n) (x ∷ xs) h = rw (length-take-drop zero n xs (omega arith)) refl
length-take-drop (suc m) n [] h = omega arith
length-take-drop (suc m) n (x ∷ xs) h = length-take-drop m n xs (omega arith)

-- A text of `n` characters that are all printable.
pub record IsColumn (n : ℕ) (text : List ℕ) : Type 0 where
  pub width : length text ≡ n
  pub clean : are_printable text ≡ true

append-IsColumn :
    {m n : ℕ} (xs ys : List ℕ) → IsColumn m xs → IsColumn n ys → IsColumn (m + n) (xs ++ ys)
append-IsColumn xs ys h k = record {
  width = length-append xs ys ∙ (rw (h.width, k.width) refl);
  clean = are_printable-append xs ys h.clean k.clean;
}

spaces-IsColumn : (n : ℕ) → IsColumn n (replicate n space)
unfolding are_printable
spaces-IsColumn zero = record { width = refl; clean = refl }
spaces-IsColumn (suc n) =
    let rest = spaces-IsColumn n in record { width = ap suc rest.width; clean = rest.clean }

print_data-IsColumn : (text : List ℕ) → IsColumn (length text) (print_data text)
unfolding print_data is_print are_printable
print_data-IsColumn [] = record { width = refl; clean = refl }
print_data-IsColumn (c ∷ cs) =
    let rest = print_data-IsColumn cs in
    let e = rest.clean in record { width = ap suc rest.width; clean = ground arith }

-- A name that fits into the column of the type.
IsName : List ℕ → Type 0
IsName text = (leb (length text) 17 ≡ true) × (are_printable text ≡ true)

names_fit : (type : ℕ) → IsName (get_or device_type type [])
unfolding are_printable IsName
names_fit type = found device_type type (
  (refl, refl),
  (
    (refl, refl),
    (
      (refl, refl),
      (
        (refl, refl),
        (
          (refl, refl),
          ((refl, refl), ((refl, refl), ((refl, refl), ((refl, refl), ((refl, refl), tt))))),
        ),
      ),
    ),
  ),
)
  where
    found : (names : List (List ℕ)) (n : ℕ) → All IsName names → IsName (get_or names n [])
    found [] n h = (refl, refl)
    found (x ∷ xs) zero h = h.0
    found (x ∷ xs) (suc n) h = found xs n h.1

padded-IsColumn : (text : List ℕ) → IsName text → IsColumn 17 (padded text)
unfolding padded IsName
padded-IsColumn text h =
    let fits : length text ≤ 17 = (let e = h.0 in ground arith) in
    let both =
      append-IsColumn text (replicate (17 - length text) space)
        (record { width = refl; clean = h.1 }) (spaces-IsColumn (17 - length text)) in
    record { width = both.width ∙ omega arith; clean = both.clean }

hex_digit_printable : (n : ℕ) → n < 16 → is_print (hex_digit n) ≡ true
unfolding hex_digit is_print
hex_digit_printable n h = ground arith

number-IsColumn :
    (a b : ℕ)
    → is_print a ≡ true
    → is_print b ≡ true
    → IsColumn 18 (codes "Type 0x" ++ (a ∷ b ∷ replicate 9 space))
unfolding are_printable is_print
number-IsColumn a b h k = record { width = refl; clean = ground arith }

if-IsColumn :
    (b : Bool) (n : ℕ) (xs ys : List ℕ)
    → IsColumn n xs
    → (b ≡ false → IsColumn n ys)
    → IsColumn n (if b then xs else ys)
if-IsColumn true n xs ys h k = h
if-IsColumn false n xs ys h k = k refl

type_text-IsColumn : (type : ℕ) → type < 32 → IsColumn 18 (type_text type)
unfolding type_text
type_text-IsColumn type h =
    if-IsColumn (ltb type max_device_type) 18 _ _
      (append-IsColumn (padded (get_or device_type type [])) (space ∷ [])
        (padded-IsColumn (get_or device_type type []) (names_fit type)) (spaces-IsColumn 1))
      (λ _.
        number-IsColumn (hex_digit (type / 16)) (hex_digit (type % 16))
          (hex_digit_printable (type / 16) (omega arith))
          (hex_digit_printable (type % 16) (omega arith)))

-- A row: 55 printable characters and the newline.
pub record IsRow (text : List ℕ) : Type 0 where
  pub front : List ℕ
  pub ends : text ≡ front ++ (newline ∷ [])
  pub column : IsColumn 55 front

place-IsColumn :
    (id lun : ℕ)
    → id < 8
    → lun < 8
    → IsColumn 7 (space ∷ digit id ∷ space ∷ space ∷ digit lun ∷ space ∷ space ∷ [])
unfolding are_printable is_print digit
place-IsColumn id lun h k = record { width = refl; clean = ground arith }

append_assoc : (xs ys zs : List ℕ) → (xs ++ ys) ++ zs ≡ xs ++ (ys ++ zs)
append_assoc [] ys zs = refl
append_assoc (x ∷ xs) ys zs = ap (λ l. x ∷ l) (append_assoc xs ys zs)

newline_behind :
    (t v p r : List ℕ)
    → t ++ (v ++ (space ∷ (p ++ (space ∷ (r ++ (newline ∷ []))))))
      ≡ (t ++ (v ++ (space ∷ (p ++ (space ∷ r))))) ++ (newline ∷ [])
newline_behind t v p r = sym (simp append_assoc)

-- The inquiry data have the lengths of the structure's fields, and a type of five bits.
pub record IsData (q : Inquiry) : Type 0 where
  pub type : q.type < 32
  pub vendor : length q.vendor ≡ 8
  pub product : length q.product ≡ 16
  pub revision : length q.revision ≡ 4

printed_fit : (text : List ℕ) (n : ℕ) → length text ≡ n → IsColumn n (print_data text)
printed_fit text n h =
    let c = print_data-IsColumn text in record { width = c.width ∙ h; clean = c.clean }

pub row-IsRow : (id lun : ℕ) (q : Inquiry) → id < 8 → lun < 8 → IsData q → IsRow (row id lun q)
unfolding row
row-IsRow id lun q h k d = record {
  front =
      place
      ++ (type_text q.type
          ++ (print_data q.vendor
              ++ (space ∷ (print_data q.product ++ (space ∷ print_data q.revision)))));
  ends =
      ap (λ l. place ++ l)
        (newline_behind (type_text q.type) (print_data q.vendor) (print_data q.product)
          (print_data q.revision));
  column = append-IsColumn place _ (place-IsColumn id lun h k) (
      append-IsColumn (type_text q.type) _ (type_text-IsColumn q.type d.type) (
        append-IsColumn (print_data q.vendor) _ (printed_fit q.vendor 8 d.vendor) (
          append-IsColumn (space ∷ []) _ (spaces-IsColumn 1) (
            append-IsColumn (print_data q.product) _ (printed_fit q.product 16 d.product) (
              append-IsColumn (space ∷ []) _ (spaces-IsColumn 1)
                (printed_fit q.revision 4 d.revision))))));
}
  where
    place : List ℕ
    place = space ∷ digit id ∷ space ∷ space ∷ digit lun ∷ space ∷ space ∷ []

pub inquiry_data-IsData : (c : Command) → IsData (inquiry_data c)
unfolding inquiry_data of_bytes
inquiry_data-IsData c = record {
  type = omega arith;
  vendor = length-take-drop 8 8 memory (rw whole (omega arith));
  product = length-take-drop 16 16 memory (rw whole (omega arith));
  revision = length-take-drop 32 4 memory (rw whole (omega arith));
}
  where
    memory : List ℕ
    memory = overwrite (take 36 c.bytes) (replicate 36 0)

    whole : length memory ≡ 36
    whole = length-overwrite (take 36 c.bytes) (replicate 36 0)
