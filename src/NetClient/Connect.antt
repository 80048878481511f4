-- ===== src/NetClient/Connect.antt =====
-- `shared_context::connect` of c_net_client.cpp: the socket objects that it makes and deletes. Each
-- of the library's calls throws or not, which is an argument.
use libncclient.Common.{
  ℕ, suc, ◌+◌, ◌≡◌, refl, ap, ◌∙◌, Bool, true, false, ◌&&◌, [], ◌∷◌, List, Option, none, some,
  arith, length, if◌then◌else◌, ◌==◌, Bool-cases, inl, inr,
}

-- The sockets that were made and not deleted, the newest first, each by its number.
pub record Context : Type 0 where
  pub sockets : List ℕ
  pub next : ℕ
  pub sock : Option ℕ
  pub use_ssl : Bool

-- The calls that get through: `resolve`, `boost::asio::connect`, `set_option`, the handshake of TLS
-- and the one of the websocket.
pub record Attempt : Type 0 where
  pub resolves : Bool
  pub connects : Bool
  pub sets_option : Bool
  pub ssl_handshakes : Bool
  pub handshakes : Bool

-- The constructor `shared_context`.
unfoldable pub shared_context : Bool → Context
shared_context puse_ssl = record { sockets = []; next = 0; sock = none; use_ssl = puse_ssl }

unfoldable pub delete_socket : ℕ → List ℕ → List ℕ
delete_socket k [] = []
delete_socket k (j ∷ sockets) = if j == k then sockets else j ∷ delete_socket k sockets

-- `delete sock; sock = nullptr;`.
unfoldable pub drop_sock : Context → Context
unfolding delete_socket
drop_sock ctx = record ctx {
  sockets = elim ctx.sock [ none ↦ ctx.sockets | some k ↦ delete_socket k ctx.sockets ];
  sock = none;
}

-- `new`.
unfoldable pub new_socket : Context → Context
new_socket ctx = record ctx { sockets = ctx.next ∷ ctx.sockets; next = suc ctx.next }

unfoldable pub gets_through : Bool → Attempt → Bool
gets_through false a = a.resolves && a.connects && a.sets_option && a.handshakes
gets_through true a = a.resolves && a.connects && a.sets_option && a.ssl_handshakes && a.handshakes

-- The context, and whether the call returns. Where it throws the new socket is not kept.
unfoldable pub connect : Context → Attempt → Context × Bool
unfolding drop_sock new_socket gets_through
connect ctx a =
    let dropped = drop_sock ctx in
    let made = new_socket dropped in
    if gets_through ctx.use_ssl a
    then (record made { sock = some dropped.next }, true)
    else (made, false)

-- The attempts of the watchdog, the first one first.
abbrev pub connect_all : Context → List Attempt → Context
connect_all ctx [] = ctx
connect_all ctx (a ∷ attempts) = connect_all (connect ctx a).0 attempts

abbrev pub failures : Bool → List Attempt → ℕ
failures use_ssl [] = 0
failures use_ssl (a ∷ attempts) =
    if gets_through use_ssl a then failures use_ssl attempts else suc (failures use_ssl attempts)

abbrev pub kept : Option ℕ → ℕ
kept none = 0
kept (some k) = 1

-- So many sockets are lost; the one in use is the newest.
abbrev Lost : ℕ → Option ℕ → List ℕ → Type 0
Lost n none sockets = length sockets ≡ n
Lost n (some k) sockets = (rest : List ℕ) × (sockets ≡ k ∷ rest) × (length rest ≡ n)

delete_newest : (k : ℕ) (rest : List ℕ) → delete_socket k (k ∷ rest) ≡ rest
unfolding delete_socket
delete_newest k rest = ground arith

drop_sock-Lost :
    (n : ℕ) (sock : Option ℕ) (sockets : List ℕ)
    → Lost n sock sockets
    → length (elim sock [ none ↦ sockets | some k ↦ delete_socket k sockets ]) ≡ n
drop_sock-Lost n none sockets lost = lost
drop_sock-Lost n (some k) sockets (rest, newest, few) =
    ap length (ap (delete_socket k) newest ∙ delete_newest k rest) ∙ few

length-Lost :
    (n : ℕ) (sock : Option ℕ) (sockets : List ℕ)
    → Lost n sock sockets
    → length sockets ≡ n + kept sock
length-Lost n none sockets lost = omega (arith, lost)
length-Lost n (some k) sockets (rest, newest, few) = omega (arith, ap length newest, few)

connect-Lost :
    (n : ℕ) (ctx : Context) (a : Attempt)
    → Lost n ctx.sock ctx.sockets
    → Lost
        (if gets_through ctx.use_ssl a then n else suc n)
        (connect ctx a).0.sock
        (connect ctx a).0.sockets
unfolding connect drop_sock new_socket
connect-Lost n ctx a lost =
    let dropped = drop_sock-Lost n ctx.sock ctx.sockets lost in
    elim (Bool-cases (gets_through ctx.use_ssl a)) [
      | inl on ↦ rw on (_, refl, dropped)
      | inr off ↦ rw off (ap suc dropped)
    ]

connect-use_ssl : (ctx : Context) (a : Attempt) → (connect ctx a).0.use_ssl ≡ ctx.use_ssl
unfolding connect drop_sock new_socket
connect-use_ssl ctx a = ground arith

connect_all-Lost :
    (n : ℕ) (ctx : Context) (attempts : List Attempt)
    → Lost n ctx.sock ctx.sockets
    → length (connect_all ctx attempts).sockets
      ≡ n + failures ctx.use_ssl attempts + kept (connect_all ctx attempts).sock
connect_all-Lost n ctx [] lost = omega (arith, length-Lost n ctx.sock ctx.sockets lost)
connect_all-Lost n ctx (a ∷ attempts) lost = ground (
  arith,
  connect_all-Lost (if gets_through ctx.use_ssl a then n else suc n) (connect ctx a).0 attempts
      (connect-Lost n ctx a lost),
  connect-use_ssl ctx a,
)

-- Of the socket objects that the attempts to connect have made, exactly one for each attempt that
-- threw is never deleted, apart from the one in use: a call of `connect` deletes the socket before
-- it, but where the library throws the new one is lost.
pub connect_all-sockets :
    (use_ssl : Bool) (attempts : List Attempt)
    → length (connect_all (shared_context use_ssl) attempts).sockets
      ≡ failures use_ssl attempts + kept (connect_all (shared_context use_ssl) attempts).sock
unfolding shared_context
connect_all-sockets use_ssl attempts =
    omega (arith, connect_all-Lost 0 (shared_context use_ssl) attempts refl)
