-- ===== src/Response/Replies.antt =====
-- The generated replies are built.
use darkhttpd.Common.{
  ℕ, ◌≡◌, ◌≢◌, refl, ap, arith, Option, none, some, List, Bytes, length, take, take_all,
}
use darkhttpd.Conn.{Connection}
use darkhttpd.Env.{Env, System, Errno, eacces, enoent, other, SysResult, ok, fail}
use darkhttpd.Get.{reply_not_modified}
use darkhttpd.Listing.{
  Dlent, generate_dir_listing, reply_listing, make_sorted_dirlist, listing_error,
}
use darkhttpd.Reply.{default_reply, redirect, redirect_https, redirect_host, redirect_safe}
use darkhttpd.Response.{IsUnsent, IsFresh, IsBuilt}

length_own : (xs : Bytes) → length (take (length xs) xs) ≡ length xs
length_own xs = ap length (take_all (length xs) xs (omega arith))

pub default_reply-IsBuilt :
    {sys : System} (e : Env) (c : Connection) (code : ℕ) (name reason : Bytes)
    → IsUnsent c
    → code ≢ 0
    → IsBuilt sys (default_reply e c code name reason)
unfolding default_reply
default_reply-IsBuilt e c code name reason u h = record {
  unsent = u;
  header_whole = refl;
  body_whole = length_own _;
  answered = h;
}

pub redirect-IsBuilt :
    {sys : System} (e : Env) (c : Connection) (where_to : Bytes)
    → IsFresh c
    → IsBuilt sys (redirect e c where_to)
unfolding redirect
redirect-IsBuilt e c where_to f = record {
  unsent = f.0;
  header_whole = refl;
  body_whole = rw f.1 (length_own _);
  answered = omega arith;
}

pub reply_not_modified-IsBuilt :
    {sys : System} (e : Env) (c : Connection) → IsFresh c → IsBuilt sys (reply_not_modified e c)
unfolding reply_not_modified
reply_not_modified-IsBuilt e c f = record {
  unsent = f.0;
  header_whole = refl;
  body_whole = refl;
  answered = omega arith;
}

listing_error-IsBuilt :
    {sys : System} (e : Env) (c : Connection) (err : Errno)
    → IsUnsent c
    → IsBuilt sys (listing_error e c err)
unfolding listing_error
listing_error-IsBuilt e c eacces u = default_reply-IsBuilt e c 403 _ _ u (omega arith)
listing_error-IsBuilt e c enoent u = default_reply-IsBuilt e c 404 _ _ u (omega arith)
listing_error-IsBuilt e c (other n) u = default_reply-IsBuilt e c 500 _ _ u (omega arith)

reply_listing-IsBuilt :
    {sys : System} (e : Env) (c : Connection) (path decoded_url : Bytes)
    (r : SysResult (List Dlent))
    → IsFresh c
    → IsBuilt sys (reply_listing e c path decoded_url r)
unfolding reply_listing
reply_listing-IsBuilt e c path decoded_url (fail err) f = listing_error-IsBuilt e c err f.0
reply_listing-IsBuilt e c path decoded_url (ok ds) f = record {
  unsent = f.0;
  header_whole = refl;
  body_whole = rw f.1 (length_own _);
  answered = omega arith;
}

pub generate_dir_listing-IsBuilt :
    {sys : System} (e : Env) (c : Connection) (path decoded_url : Bytes)
    → IsFresh c
    → IsBuilt sys (generate_dir_listing e c path decoded_url)
unfolding generate_dir_listing
generate_dir_listing-IsBuilt e c path decoded_url =
    reply_listing-IsBuilt e c path decoded_url (make_sorted_dirlist e path)

redirect_host-IsBuilt :
    {sys : System} (e : Env) (c : Connection) (path : Bytes) (host : Option Bytes)
    → IsFresh c
    → IsBuilt sys (redirect_host e c path host)
unfolding redirect_host
redirect_host-IsBuilt e c path none f = default_reply-IsBuilt e c 400 _ _ f.0 (omega arith)
redirect_host-IsBuilt e c path (some host) f = redirect-IsBuilt e c _ f

redirect_safe-IsBuilt :
    {sys : System} (e : Env) (c : Connection) (path : Option Bytes)
    → IsFresh c
    → IsBuilt sys (redirect_safe e c path)
unfolding redirect_safe
redirect_safe-IsBuilt e c none f = default_reply-IsBuilt e c 400 _ _ f.0 (omega arith)
redirect_safe-IsBuilt e c (some path) f = redirect_host-IsBuilt e c path _ f

pub redirect_https-IsBuilt :
    {sys : System} (e : Env) (c : Connection) → IsFresh c → IsBuilt sys (redirect_https e c)
unfolding redirect_https
redirect_https-IsBuilt e c f = redirect_safe-IsBuilt e c _ f
