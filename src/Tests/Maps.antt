-- ===== src/Tests/Maps.antt =====
-- Concrete runs on the map from extensions to types.
use darkhttpd.Common.{◌≡◌, some, List, [], ◌∷◌, Bytes, codes, length, if◌then◌else◌}
use darkhttpd.Cstring.{strcasecmp, str_case_eq}
use darkhttpd.Env.{MimeMap}
use darkhttpd.Mime.{
  add_mime_mapping, parse_default_extension_map, parse_extension_map_file, sort_mime_map, bsearch,
}
use darkhttpd.Mime.Built.{find_type, find_type-add_mime_mapping, bsearch-parse_extension_map_file}
use darkhttpd.Mime.Lookup.{find}

abbrev lines : List Bytes
lines = codes "text/html html htm" ∷ codes "text/plain txt" ∷ []

-- The file gives HTM another type.
abbrev file : Bytes
file = codes "# types\ntext/x-old HTM\nimage/png png\n"

abbrev first_map : MimeMap
first_map = parse_default_extension_map lines (record { entries = []; longest_ext = 0 })

bsearch-parse_extension_map_file_example :
    let built = (parse_extension_map_file file first_map).entries in
    let sorted = sort_mime_map built in
    bsearch (length sorted) (λ m. strcasecmp (codes "Htm") m.extension) sorted
    ≡ find (codes "Htm") built
bsearch-parse_extension_map_file_example = bsearch-parse_extension_map_file (codes "Htm") file lines

find_type-add_mime_mapping_example :
    find_type (codes "htm") (add_mime_mapping (codes "HTM") (codes "text/x-old") first_map).entries
    ≡ (if str_case_eq (codes "htm") (codes "HTM")
        then some (codes "text/x-old")
        else find_type (codes "htm") first_map.entries)
find_type-add_mime_mapping_example =
    find_type-add_mime_mapping (codes "htm") (codes "HTM") (codes "text/x-old") first_map
