-- ===== src/Mime.antt =====
-- The map from extensions to MIME types of darkhttpd.c: its construction from lines of text, its
-- sorting, and the lookup by binary search.
pub mod Built
pub mod Lookup
pub mod Order
pub mod Search
use Prim.Native.Nat.{Ordering}
use darkhttpd.Common.{
  ℕ, zero, suc, ◌+◌, ◌-◌, ◌/◌, Bool, not, ◌&&◌, ◌||◌, Option, none, some, List, [], ◌∷◌, ◌==◌, ltb,
  leb, if◌then◌else◌, Bytes, get_or, take, drop, length,
}
use darkhttpd.Cstring.{c_str, strcasecmp, str_case_eq}
use darkhttpd.Env.{MimeMapping, MimeMap, Config}
use darkhttpd.Request.{scan_while, split_string}

unfoldable pub replace_entry : List MimeMapping → Bytes → Bytes → List MimeMapping
unfolding str_case_eq
replace_entry [] extension mimetype = record { extension = extension; mimetype = mimetype } ∷ []
replace_entry (m ∷ ms) extension mimetype =
    let rest = m ∷ replace_entry ms extension mimetype in
    if str_case_eq m.extension extension then record m { mimetype = mimetype } ∷ ms else rest

unfoldable pub add_mime_mapping : Bytes → Bytes → MimeMap → MimeMap
unfolding replace_entry
add_mime_mapping extension mimetype m = record {
  entries = replace_entry m.entries extension mimetype;
  longest_ext = if ltb m.longest_ext (length extension) then length extension else m.longest_ext;
}

-- `mime_mapping_cmp`
abbrev pub mime_mapping_cmp : MimeMapping → MimeMapping → Ordering
mime_mapping_cmp a b = strcasecmp a.extension b.extension

insert_sorted : MimeMapping → List MimeMapping → List MimeMapping
insert_sorted m [] = m ∷ []
insert_sorted m (x ∷ xs) =
    let rest = x ∷ insert_sorted m xs in
    elim (mime_mapping_cmp m x) [ Ordering.gt ↦ rest | _ ↦ m ∷ x ∷ xs ]

-- `sort_mime_map`: `qsort` by `mime_mapping_cmp`.
unfoldable pub sort_mime_map : List MimeMapping → List MimeMapping
unfolding insert_sorted
sort_mime_map [] = []
sort_mime_map (m ∷ ms) = insert_sorted m (sort_mime_map ms)

abbrev pub is_blank : ℕ → Bool
is_blank c = c == b' ' || c == b'\t'

-- The loop `for (;;)` of `parse_mimetype_line`, on the line from `lbound` on. Each round that goes on
-- reads at least one byte.
add_extensions : ℕ → Bytes → Bytes → MimeMap → MimeMap
unfolding scan_while split_string add_mime_mapping
add_extensions zero mimetype rest m = m
add_extensions (suc fuel) mimetype rest m =
    let line = drop (scan_while is_blank rest) rest in
    let rbound = scan_while (λ c. not (is_blank c)) line in
    let m' = add_mime_mapping (split_string line 0 rbound) mimetype m in
    let further = add_extensions fuel mimetype (drop (suc rbound) line) m' in
    if length line == 0 then m else if rbound == length line then m' else further

unfoldable pub parse_mimetype_line : Bytes → MimeMap → MimeMap
unfolding add_extensions
parse_mimetype_line line m =
    let pad = scan_while is_blank line in
    let bound1 = suc pad + scan_while (λ c. not (is_blank c)) (drop (suc pad) line) in
    let first = get_or line pad 0 in
    if first == 0 || first == b'#'
    then m
    else if get_or line bound1 0 == 0
    then m
    else add_extensions (suc (length line)) (split_string line pad bound1) (drop bound1 line) m

-- `read_line` on what is left of a file: the line and what follows its ending, `none` at the end.
unfoldable pub read_line : Bytes → Option (Bytes × Bytes)
unfolding scan_while
read_line file =
    let linelen = scan_while (λ c. not (c == b'\n' || c == b'\r')) file in
    let ending = get_or (drop linelen file) 0 0 in
    let second = get_or (drop linelen file) 1 0 in
    if length file == 0
    then none
    else if ending == b'\r' && second == b'\n'
    then some (take linelen file, drop (suc (suc linelen)) file)
    else some (take linelen file, drop (suc linelen) file)

read_lines : ℕ → Bytes → MimeMap → MimeMap
unfolding read_line parse_mimetype_line c_str
read_lines zero file m = m
read_lines (suc fuel) file m = elim (read_line file) [
  | none ↦ m
  | some (line, rest) ↦ read_lines fuel rest (parse_mimetype_line (c_str line) m)
]

-- `parse_extension_map_file` on the bytes of the file.
unfoldable pub parse_extension_map_file : Bytes → MimeMap → MimeMap
unfolding read_lines
parse_extension_map_file file m = read_lines (suc (length file)) file m

unfoldable pub parse_default_extension_map : List Bytes → MimeMap → MimeMap
unfolding parse_mimetype_line
parse_default_extension_map [] m = m
parse_default_extension_map (line ∷ lines) m =
    parse_default_extension_map lines (parse_mimetype_line line m)

-- `bsearch` by halving; `cmp` compares the key with an element.
unfoldable pub bsearch : ℕ → (MimeMapping → Ordering) → List MimeMapping → Option MimeMapping
bsearch zero cmp ms = none
bsearch (suc fuel) cmp ms =
    let mid = length ms / 2 in
    elim (drop mid ms) [
      | [] ↦ none
      | x ∷ above ↦ elim (cmp x) [
        | Ordering.eq ↦ some x
        | Ordering.lt ↦ bsearch fuel cmp (take mid ms)
        | Ordering.gt ↦ bsearch fuel cmp above
      ]
    ]

-- The loop of `url_content_type` from `period` down.
unfoldable pub find_period : Bytes → ℕ → ℕ → ℕ
find_period url longest_ext zero = zero
find_period url longest_ext (suc p) =
    let down = find_period url longest_ext p in
    if not (get_or url (suc p) 0 == b'.') && leb (length url - suc p - 1) longest_ext
    then down
    else suc p

-- `url_content_type`; the type of the entry found, or the default.
unfoldable pub url_content_type : Config → Bytes → Bytes
unfolding find_period bsearch strcasecmp
url_content_type e url =
    let period = find_period url e.mime_map.longest_ext (length url - 1) in
    let entries = e.mime_map.entries in
    let key = drop (suc period) url in
    if length url == 0 || not (get_or url period 0 == b'.')
    then e.default_mimetype
    else elim (bsearch (length entries) (λ m. strcasecmp key m.extension) entries) [
      | none ↦ e.default_mimetype
      | some m ↦ m.mimetype
    ]
