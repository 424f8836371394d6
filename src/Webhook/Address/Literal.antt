-- ===== src/Webhook/Address/Literal.antt =====
-- `parseIpv4` and `parseIpv6` of backend/src/utils/webhookUrlGuard.ts.
use ziza_lend.Common.{
  ℕ, ◌+◌, ◌-◌, ◌*◌, ◌/◌, ◌%◌, Bool, ◌&&◌, ◌||◌, Option, none, some, List, [], ◌∷◌, ◌++◌, ltb, leb,
  ◌==◌, if◌then◌else◌, Text, length, all, replicate, not,
}
use ziza_lend.Common.Js.{is_digit, digits_value, split, has_char, to_lower}

pub record Ipv4 : Type 0 where
  pub a : ℕ
  pub b : ℕ
  pub c : ℕ
  pub d : ℕ

-- `\d{1,3}`.
abbrev pub is_octet_text : Text → Bool
is_octet_text part = leb 1 (length part) && leb (length part) 3 && all is_digit part

abbrev pub octet : Text → ℕ
octet part = digits_value 0 part

unfoldable pub ipv4_of_parts : List Text → Option Ipv4
ipv4_of_parts (p ∷ q ∷ r ∷ s ∷ []) =
    if is_octet_text p && is_octet_text q && is_octet_text r && is_octet_text s
    then if leb (octet p) 255 && leb (octet q) 255 && leb (octet r) 255 && leb (octet s) 255
      then some (record { a = octet p; b = octet q; c = octet r; d = octet s })
      else none
    else none
ipv4_of_parts _ = none

unfoldable pub parse_ipv4 : Text → Option Ipv4
unfolding ipv4_of_parts split digits_value
parse_ipv4 address = ipv4_of_parts (split b'.' address)

-- `address.split('%')[0].toLowerCase()`.
unfoldable pub before_scope : Text → Text
before_scope [] = []
before_scope (c ∷ s) = if c == b'%' then [] else to_lower c ∷ before_scope s

-- `slice(0, lastColon + 1)` and `slice(lastColon + 1)`; with no colon all is in the second.
unfoldable pub cut_last_colon : Text → Text × Text
cut_last_colon [] = ([], [])
cut_last_colon (c ∷ s) =
    let (head, tail) = cut_last_colon s in
    if has_char b':' (c ∷ s)
    then (if has_char b':' s then (c ∷ head, tail) else (c ∷ [], s))
    else ([], c ∷ s)

abbrev hex_digit : ℕ → ℕ
hex_digit n = if ltb n 10 then 48 + n else 87 + n

-- `toString(16)` of a number below 2^16.
unfoldable pub hex16 : ℕ → Text
hex16 n =
    if ltb n 16
    then hex_digit n ∷ []
    else if ltb n 256
    then hex_digit (n / 16) ∷ hex_digit (n % 16) ∷ []
    else if ltb n 4096
    then hex_digit (n / 256) ∷ hex_digit (n / 16 % 16) ∷ hex_digit (n % 16) ∷ []
    else hex_digit (n / 4096)
      ∷ hex_digit (n / 256 % 16)
      ∷ hex_digit (n / 16 % 16)
      ∷ hex_digit (n % 16)
      ∷ []

-- A trailing dotted quad becomes two groups; none where it is no IPv4 address.
unfoldable pub fold_ipv4 : Text → Option Text
unfolding parse_ipv4 cut_last_colon hex16 has_char
fold_ipv4 working =
    let (head, tail) = cut_last_colon working in
    if has_char b'.' tail
    then elim (parse_ipv4 tail) [
      | none ↦ none
      | some ip ↦ some (head ++ (hex16 (ip.a * 256 + ip.b) ++ b':' ∷ hex16 (ip.c * 256 + ip.d)))
    ]
    else some working

abbrev pub is_hex : ℕ → Bool
is_hex c = is_digit c || leb b'a' c && leb c b'f'

abbrev pub hex_value : ℕ → Text → ℕ
hex_value acc [] = acc
hex_value acc (c ∷ s) = hex_value (acc * 16 + (if is_digit c then c - 48 else c - 87)) s

-- `/^[0-9a-f]{1,4}$/`.
abbrev pub is_group_text : Text → Bool
is_group_text part = leb 1 (length part) && leb (length part) 4 && all is_hex part

unfoldable pub groups_of_parts : List Text → Option (List ℕ)
groups_of_parts [] = some []
groups_of_parts (p ∷ ps) =
    let rest = groups_of_parts ps in
    if is_group_text p
    then elim rest [ none ↦ none | some gs ↦ some (hex_value 0 p ∷ gs) ]
    else none

unfoldable pub parse_groups : Text → Option (List ℕ)
unfolding groups_of_parts split
parse_groups [] = some []
parse_groups (c ∷ s) = groups_of_parts (split b':' (c ∷ s))

-- `working.split('::')`.
abbrev add_first : ℕ → List Text → List Text
add_first c [] = (c ∷ []) ∷ []
add_first c (part ∷ parts) = (c ∷ part) ∷ parts

unfoldable pub split_double : Text → List Text
split_double [] = [] ∷ []
split_double (c ∷ []) = (c ∷ []) ∷ []
split_double (c ∷ d ∷ s) =
    let after = split_double s in
    let longer = split_double (d ∷ s) in
    if c == b':' && d == b':' then [] ∷ after else add_first c longer

-- Eight groups, with the gap of `::` filled by zeros: none where they are too few or too many.
unfoldable pub join_groups : List ℕ → List ℕ → Option (List ℕ)
join_groups head tail =
    if leb (length head + length tail) 7
    then some (head ++ (replicate (8 - length head - length tail) 0 ++ tail))
    else none

unfoldable pub groups_of_sections : List Text → Option (List ℕ)
unfolding parse_groups join_groups
groups_of_sections (s ∷ []) = elim (parse_groups s) [
  | none ↦ none
  | some head ↦ if length head == 8 then some head else none
]
groups_of_sections (s ∷ t ∷ []) = elim (parse_groups s) [
  | none ↦ none
  | some head ↦ elim (parse_groups t) [ none ↦ none | some tail ↦ join_groups head tail ]
]
groups_of_sections _ = none

unfoldable pub parse_ipv6 : Text → Option (List ℕ)
unfolding before_scope fold_ipv4 groups_of_sections split_double has_char
parse_ipv6 address =
    let without_scope = before_scope address in
    if not (has_char b':' without_scope) then none else elim (fold_ipv4 without_scope) [
      | none ↦ none
      | some working ↦ groups_of_sections (split_double working)
    ]
