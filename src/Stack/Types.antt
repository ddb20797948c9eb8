-- ===== src/Stack/Types.antt =====
-- The state of ST87M01_CellularStack, and what its base classes give it.
use mbed_ce_st87m.Common.{
  ◌≡◌, arith, pos, negsuc, ℕ, Bool, true, false, Option, List, ◌==◌, if◌then◌else◌, ℤ, ◌==ℤ◌,
}
use mbed_ce_st87m.At.{gets, Modem, Trace, Action}

pub data Proto : Type 0 where
  udp tcp other_proto : Proto

-- nsapi_version_t
pub data IpVersion : Type 0 where
  unspec ipv4 ipv6 : IpVersion

abbrev pub is_udp : Proto → Bool
is_udp Proto.udp = true
is_udp _ = false

abbrev pub is_ipv6 : IpVersion → Bool
is_ipv6 IpVersion.ipv6 = true
is_ipv6 _ = false

abbrev pub same_version : IpVersion → IpVersion → Bool
same_version IpVersion.unspec IpVersion.unspec = true
same_version IpVersion.ipv4 IpVersion.ipv4 = true
same_version IpVersion.ipv6 IpVersion.ipv6 = true
same_version _ _ = false

-- SocketAddress: its text, its port and its IP version
pub record Address : Type 0 where
  pub ip : List ℕ
  pub port : ℕ
  pub version : IpVersion

-- The fields of CellularSocket that the driver uses; `has_cb` says that a callback is set.
pub record Socket : Type 0 where
  pub id : ℤ
  pub proto : Proto
  pub local_port : ℕ
  pub remote_address : Address
  pub connected : Bool
  pub started : Bool
  pub closed : Bool
  pub tls_socket : Bool
  pub txfull_event : Bool
  pub pending_bytes : ℕ
  pub has_cb : Bool

-- SocketRxBuffer; `bytes` is the array `data`, with whatever it holds.
pub record RxBuffer : Type 0 where
  pub bytes : List ℕ
  pub head : ℕ
  pub tail : ℕ

abbrev pub max_sockets : ℕ
max_sockets = 7

-- A socket handle is a number, under which `sockets` holds the object. The tables are indexed by
-- C++ ints: what `socket_sslctx` holds outside 0..6 is what lies beside the array in memory.
pub record Stack (P : Type 0) : Type 0 where
  pub cid : ℤ
  pub ip_ver_sendto : IpVersion
  pub sslctx_id : ℤ
  pub ip_configured : Bool
  pub txfull_event_id : ℕ
  pub socket_sslctx : ℤ → ℤ
  pub rx_buf : ℤ → Option RxBuffer
  pub rx_pool : P
  pub socket_slots : List (Option ℕ)
  pub sockets : ℕ → Socket

-- What the driver takes from outside this repository: the handler with its modem, the memory pool
-- of receive buffers, the base class's find_socket, the id that the event queue gives a call (0
-- when it has no room), SocketAddress's reading of a text, NSAPI_IP_SIZE,
-- MAX_ACCESSPOINT_NAME_LENGTH, and of the build's
-- configuration the size of a receive buffer and the default TLS profile.
pub record Env (P : Type 0) : Type 0 where
  pub modem : Modem
  pub try_alloc : P → Option (RxBuffer × P)
  pub free_block : RxBuffer → P → P
  pub find_socket : List (Option ℕ) → (ℕ → Socket) → ℤ → Option ℕ
  pub event_id : Trace → ℕ
  pub parse_address : List ℕ → Address
  pub ip_size : ℕ
  pub apn_size : ℕ
  pub rx_size : ℕ
  pub default_sslctx : ℤ

abbrev pub update_at {ℓ} : {A : Type ℓ} → (ℤ → A) → ℤ → A → ℤ → A
update_at f k v j = if k ==ℤ j then v else f j

pub update_at_self {ℓ} : {A : Type ℓ} (f : ℤ → A) (k : ℤ) (v : A) → update_at f k v k ≡ v
update_at_self f (pos n) v = ground arith
update_at_self f (negsuc n) v = ground arith

abbrev pub update_handle {ℓ} : {A : Type ℓ} → (ℕ → A) → ℕ → A → ℕ → A
update_handle f k v j = if k == j then v else f j

module _ {P : Type 0} where
  abbrev pub set_socket : ℕ → Socket → Stack P → Stack P
  set_socket h sock s = record s { sockets = update_handle s.sockets h sock }

  abbrev pub get_state : Action (Stack P) (Stack P)
  get_state = gets (λ s. s)

  abbrev pub find : Env P → Stack P → ℤ → Option ℕ
  find env s k = env.find_socket s.socket_slots s.sockets k
