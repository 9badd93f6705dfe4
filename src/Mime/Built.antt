-- ===== src/Mime/Built.antt =====
-- The map that the lines of the default map and of a file build.
use darkhttpd.Common.{
  ℕ, zero, suc, ◌+◌, ◌≡◌, refl, ap, ◌∙◌, arith, inl, inr, true, false, Bool-cases, Option, none,
  some, List, [], ◌∷◌, ◌==◌, if◌then◌else◌, ◌||◌, Bytes, All, drop, length, get_or, not,
}
use darkhttpd.Cstring.{strcasecmp, str_case_eq, is_eq, c_str}
use darkhttpd.Env.{MimeMapping, MimeMap}
use darkhttpd.Mime.{
  replace_entry, add_mime_mapping, add_extensions, parse_mimetype_line, read_line, read_lines,
  parse_extension_map_file, parse_default_extension_map, bsearch, sort_mime_map, is_blank,
}
use darkhttpd.Mime.Lookup.{find, IsDistinct, Ordering-cases, not_both}
use darkhttpd.Mime.Order.{strcasecmp-flip, strcasecmp-eq}
use darkhttpd.Mime.Search.{bsearch-sort_mime_map}
use darkhttpd.Request.{scan_while, split_string}

str_case_eq-sym : (a b : Bytes) → str_case_eq a b ≡ str_case_eq b a
unfolding str_case_eq
str_case_eq-sym a b = elim (Ordering-cases (strcasecmp a b)) [
  | inl lt ↦ rw (strcasecmp-flip a b, lt) refl
  | inr (inl eq) ↦ rw (strcasecmp-flip a b, eq) refl
  | inr (inr gt) ↦ rw (strcasecmp-flip a b, gt) refl
]

same_left : (a b key : Bytes) → str_case_eq a b ≡ true → str_case_eq a key ≡ str_case_eq b key
unfolding str_case_eq
same_left a b key h = elim (Ordering-cases (strcasecmp a b)) [
  | inl lt ↦ cc (rw lt at h)
  | inr (inl eq) ↦ ap is_eq (strcasecmp-eq a b key eq)
  | inr (inr gt) ↦ cc (rw gt at h)
]

-- Equal extensions are equal to the same keys.
str_case_eq-same :
    (key a b : Bytes) → str_case_eq a b ≡ true → str_case_eq key a ≡ str_case_eq key b
str_case_eq-same key a b h = str_case_eq-sym key a ∙ same_left a b key h ∙ str_case_eq-sym b key

-- The type of an extension in the map.
pub find_type : Bytes → List MimeMapping → Option Bytes
find_type key [] = none
find_type key (m ∷ ms) =
    let rest = find_type key ms in if str_case_eq key m.extension then some m.mimetype else rest

find_type-replace_entry :
    (key extension mimetype : Bytes) (ms : List MimeMapping)
    → find_type key (replace_entry ms extension mimetype)
      ≡ (if str_case_eq key extension then some mimetype else find_type key ms)
unfolding replace_entry find_type
find_type-replace_entry key extension mimetype [] = refl
find_type-replace_entry key extension mimetype (m ∷ ms) =
    elim (Bool-cases (str_case_eq m.extension extension)) [
      | inl replaced ↦
          simp replaced (rw (str_case_eq-same key m.extension extension replaced) (ground arith))
      | inr kept ↦ simp kept (
          rw (find_type-replace_entry key extension mimetype ms)
            (elim (Bool-cases (str_case_eq key extension)) [
              | inl wanted ↦
                  rw
                    (
                      wanted,
                      not_both key extension m.extension
                          (str_case_eq-sym extension m.extension ∙ kept) wanted,
                    )
                    refl
              | inr other ↦ rw other refl
            ]))
    ]

-- After `add_mime_mapping` the extension has the given type, in whatever case it is written, and
-- every other extension the type that it had.
pub find_type-add_mime_mapping :
    (key extension mimetype : Bytes) (m : MimeMap)
    → find_type key (add_mime_mapping extension mimetype m).entries
      ≡ (if str_case_eq key extension then some mimetype else find_type key m.entries)
unfolding add_mime_mapping
find_type-add_mime_mapping key extension mimetype m =
    find_type-replace_entry key extension mimetype m.entries

replace_entry-Other :
    (key extension mimetype : Bytes) (ms : List MimeMapping)
    → str_case_eq key extension ≡ false
    → All (λ x. str_case_eq key x.extension ≡ false) ms
    → All (λ x. str_case_eq key x.extension ≡ false) (replace_entry ms extension mimetype)
unfolding replace_entry
replace_entry-Other key extension mimetype [] d a = (d, tt)
replace_entry-Other key extension mimetype (m ∷ ms) d a =
    elim (Bool-cases (str_case_eq m.extension extension)) [
      | inl replaced ↦ simp replaced a
      | inr kept ↦ simp kept (a.0, replace_entry-Other key extension mimetype ms d a.1)
    ]

replace_entry-IsDistinct :
    (extension mimetype : Bytes) (ms : List MimeMapping)
    → IsDistinct ms
    → IsDistinct (replace_entry ms extension mimetype)
unfolding replace_entry
replace_entry-IsDistinct extension mimetype [] d = (tt, tt)
replace_entry-IsDistinct extension mimetype (m ∷ ms) d =
    elim (Bool-cases (str_case_eq m.extension extension)) [
      | inl replaced ↦ simp replaced d
      | inr kept ↦ simp kept (
        replace_entry-Other m.extension extension mimetype ms kept d.0,
        replace_entry-IsDistinct extension mimetype ms d.1,
      )
    ]

add_extensions-IsDistinct :
    (fuel : ℕ) (mimetype rest : Bytes) (m : MimeMap)
    → IsDistinct m.entries
    → IsDistinct (add_extensions fuel mimetype rest m).entries
unfolding add_extensions add_mime_mapping
add_extensions-IsDistinct zero mimetype rest m d = d
add_extensions-IsDistinct (suc fuel) mimetype rest m d =
    let line = drop (scan_while is_blank rest) rest in
    let rbound = scan_while (λ c. not (is_blank c)) line in
    let extension = split_string line 0 rbound in
    let added = replace_entry-IsDistinct extension mimetype m.entries d in
    elim (Bool-cases (length line == 0)) [
      | inl ended ↦ simp ended d
      | inr more ↦ elim (Bool-cases (rbound == length line)) [
        | inl last ↦ simp (more, last) added
        | inr further ↦
            simp (more, further)
              (add_extensions-IsDistinct fuel mimetype (drop (suc rbound) line)
                (add_mime_mapping extension mimetype m) added)
      ]
    ]

parse_mimetype_line-IsDistinct :
    (line : Bytes) (m : MimeMap)
    → IsDistinct m.entries
    → IsDistinct (parse_mimetype_line line m).entries
unfolding parse_mimetype_line
parse_mimetype_line-IsDistinct line m d =
    let pad = scan_while is_blank line in
    let bound1 = suc pad + scan_while (λ c. not (is_blank c)) (drop (suc pad) line) in
    let first = get_or line pad 0 in
    elim (Bool-cases (first == 0 || first == b'#')) [
      | inl comment ↦ simp comment d
      | inr text ↦ elim (Bool-cases (get_or line bound1 0 == 0)) [
        | inl alone ↦ simp (text, alone) d
        | inr more ↦
            simp (text, more)
              (add_extensions-IsDistinct (suc (length line)) (split_string line pad bound1)
                (drop bound1 line) m d)
      ]
    ]

pub parse_default_extension_map-IsDistinct :
    (lines : List Bytes) (m : MimeMap)
    → IsDistinct m.entries
    → IsDistinct (parse_default_extension_map lines m).entries
unfolding parse_default_extension_map
parse_default_extension_map-IsDistinct [] m d = d
parse_default_extension_map-IsDistinct (line ∷ lines) m d =
    parse_default_extension_map-IsDistinct lines _ (parse_mimetype_line-IsDistinct line m d)

behind_line-IsDistinct :
    (fuel : ℕ) (m : MimeMap) (o : Option (Bytes × Bytes))
    → IsDistinct m.entries
    → ((rest : Bytes) (m : MimeMap)
        → IsDistinct m.entries
        → IsDistinct (read_lines fuel rest m).entries)
    → IsDistinct
        (elim o as (λ o. MimeMap) [
          | none ↦ m
          | some (line, rest) ↦ read_lines fuel rest (parse_mimetype_line (c_str line) m)
        ]).entries
behind_line-IsDistinct fuel m none d next = d
behind_line-IsDistinct fuel m (some (line, rest)) d next =
    next rest (parse_mimetype_line (c_str line) m) (parse_mimetype_line-IsDistinct (c_str line) m d)

read_lines-IsDistinct :
    (fuel : ℕ) (file : Bytes) (m : MimeMap)
    → IsDistinct m.entries
    → IsDistinct (read_lines fuel file m).entries
unfolding read_lines
read_lines-IsDistinct zero file m d = d
read_lines-IsDistinct (suc fuel) file m d =
    behind_line-IsDistinct fuel m (read_line file) d (read_lines-IsDistinct fuel)

pub parse_extension_map_file-IsDistinct :
    (file : Bytes) (m : MimeMap)
    → IsDistinct m.entries
    → IsDistinct (parse_extension_map_file file m).entries
unfolding parse_extension_map_file
parse_extension_map_file-IsDistinct file m d = read_lines-IsDistinct (suc (length file)) file m d

-- Whatever the lines of the default map and the file of `--mimetypes` hold, the binary search
-- in the sorted map that they build finds for every key what a search from the front of the unsorted
-- map finds.
pub bsearch-parse_extension_map_file :
    (key file : Bytes) (lines : List Bytes)
    → let first = parse_default_extension_map lines (record { entries = []; longest_ext = 0 }) in
      let built = (parse_extension_map_file file first).entries in
      let sorted = sort_mime_map built in
      bsearch (length sorted) (λ m. strcasecmp key m.extension) sorted ≡ find key built
bsearch-parse_extension_map_file key file lines =
    let empty : MimeMap = record { entries = []; longest_ext = 0 } in
    let first = parse_default_extension_map lines empty in
    bsearch-sort_mime_map key (parse_extension_map_file file first).entries (
      parse_extension_map_file-IsDistinct file first
        (parse_default_extension_map-IsDistinct lines empty tt))
