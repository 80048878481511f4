-- ===== src/Socket/Context.antt =====
-- `ssl_ctx_wrap` of socket.hpp. The certificate, the parameters and the key are static: they are
-- read at the first construction that asks for them and gets to them, and stay. `is_usable` is
-- whether the library takes them, or throws.
use libncclient.Common.{
  ◌≡◌, subst, ap, Bool, true, [], ◌∷◌, List, Bytes, Option, none, some, codes, if◌then◌else◌,
}
use libncclient.Util.Files.{Files, read_file_bin}

pub record Statics : Type 0 where
  pub cert : Option Bytes
  pub dh : Option Bytes
  pub key : Option Bytes

abbrev pub no_statics : Statics
no_statics = record { cert = none; dh = none; key = none }

-- `ssl::context`, with what it was given.
pub record SslContext : Type 0 where
  pub options : List Bytes
  pub certificate_chain : Bytes
  pub private_key : Bytes
  pub tmp_dh : Bytes

abbrev pub bare : SslContext
bare = record { options = []; certificate_chain = []; private_key = []; tmp_dh = [] }

abbrev pub server_options : List Bytes
server_options =
    codes "default_workarounds" ∷ codes "no_sslv2" ∷ codes "single_dh_use" ∷ codes "no_sslv3" ∷ []

-- A static that is read from its file, unless it is there.
unfoldable pub load : Option Bytes → Bytes → Files → Option Bytes
unfolding read_file_bin
load none file files = read_file_bin file files
load (some contents) file files = some contents

abbrev pub use_all : (SslContext → Bool) → Bytes → Bytes → Bytes → Option SslContext
use_all is_usable cert dh key =
    let ctx : SslContext = record {
      options = server_options;
      certificate_chain = cert;
      private_key = key;
      tmp_dh = dh;
    } in
    if is_usable ctx then some ctx else none

-- The rest, with what was read of each; an exception leaves those before it.
unfoldable pub wrap_loaded :
    (SslContext → Bool)
    → Statics
    → Option Bytes
    → Option Bytes
    → Option Bytes
    → Statics × Option SslContext
wrap_loaded is_usable statics none dh key = (statics, none)
wrap_loaded is_usable statics (some c) none key = (record statics { cert = some c }, none)
wrap_loaded is_usable statics (some c) (some d) none =
    (record statics { cert = some c; dh = some d }, none)
wrap_loaded is_usable statics (some c) (some d) (some k) =
    (record { cert = some c; dh = some d; key = some k }, use_all is_usable c d k)

-- The statics behind the constructor, and the context unless it throws.
unfoldable pub ssl_ctx_wrap :
    (SslContext → Bool) → Bool → Statics → Files → Statics × Option SslContext
unfolding wrap_loaded load
ssl_ctx_wrap is_usable init statics files =
    if init
    then wrap_loaded is_usable statics
        (load statics.cert (codes "./deps/secret/cert/cert.crt") files)
        (load statics.dh (codes "./deps/secret/cert/dh.pem") files)
        (load statics.key (codes "./deps/secret/cert/key.pem") files)
    else (statics, some bare)

-- The context of a construction that got through is the one of every later construction, whatever
-- has become of the files in between: a renewed certificate is not read, and a removed one is not
-- missed.
pub ssl_ctx_wrap-static :
    (is_usable : SslContext → Bool) (before after : Statics) (files later : Files)
    (ctx : SslContext)
    → ssl_ctx_wrap is_usable true before files ≡ (after, some ctx)
    → ssl_ctx_wrap is_usable true after later ≡ (after, some ctx)
unfolding ssl_ctx_wrap wrap_loaded load
ssl_ctx_wrap-static is_usable before after files later ctx result =
    by_loads (load before.cert _ files) (load before.dh _ files) (load before.key _ files) result
  where
    by_loads :
        (c d k : Option Bytes)
        → wrap_loaded is_usable before c d k ≡ (after, some ctx)
        → ssl_ctx_wrap is_usable true after later ≡ (after, some ctx)
    by_loads none d k e = absurd (cc (ap (λ r. r.1) e))
    by_loads (some c) none k e = absurd (cc (ap (λ r. r.1) e))
    by_loads (some c) (some d) none e = absurd (cc (ap (λ r. r.1) e))
    by_loads (some c) (some d) (some k) e =
        subst (λ a. ssl_ctx_wrap is_usable true a later ≡ (a, some ctx)) (ap (λ r. r.0) e)
          (ap (λ o. (record { cert = some c; dh = some d; key = some k }, o)) (ap (λ r. r.1) e))
