-- ===== src/Tests/Shown.antt =====
-- Concrete runs: a directory as a listing shows it.
use darkhttpd.Common.{List, [], ◌∷◌, Bytes, ◌≡◌, refl, codes, ◌^◌, ◌-◌, ◌+◌}
use darkhttpd.Env.{Env, ok}
use darkhttpd.Listing.{make_sorted_dirlist}
use darkhttpd.Listing.Sorted.{Lists, make_sorted_dirlist-Lists}
use darkhttpd.Tests.{site, site_system}
use darkhttpd.Sizes.{humanize_size, to_double, decimal_padded}

humanize_size_small : humanize_size 1023 ≡ codes "      1023"
unfolding humanize_size decimal_padded
humanize_size_small = refl

-- A tie goes to the even digit.
humanize_size_tie : humanize_size 1280 ≡ codes "      1.2K"
unfolding humanize_size
humanize_size_tie = refl

humanize_size_carried : humanize_size 1048575 ≡ codes "   1024.0K"
unfolding humanize_size
humanize_size_carried = refl

humanize_size_largest : humanize_size (2 ^ 63 - 1) ≡ codes "      8.0E"
unfolding humanize_size
humanize_size_largest = refl

to_double_odd : to_double (2 ^ 53 + 1) ≡ 2 ^ 53
unfolding to_double
to_double_odd = refl

-- What `readdir` gives: every name has a status.
abbrev names : List Bytes
names = codes "b" ∷ codes ".." ∷ codes "a" ∷ []

abbrev listed_site : Env
listed_site = record site { system = record site_system { opendir = λ path. ok names } }

make_sorted_dirlist-Lists_example :
    Lists listed_site (codes "/w/") (ok names) (make_sorted_dirlist listed_site (codes "/w/"))
make_sorted_dirlist-Lists_example = make_sorted_dirlist-Lists listed_site (codes "/w/")
