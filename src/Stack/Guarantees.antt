-- ===== src/Stack/Guarantees.antt =====
-- What single operations of the stack guarantee: the received stream, closing, TLS profiles.
use Prim.Native.Nat.{min}
use mbed_ce_st87m.Common.{
  ℕ, zero, suc, ◌+◌, ◌-◌, ◌≡◌, refl, sym, ap, ◌∙◌, ◌⊎◌, inl, inr, true, false, none, some, List, [],
  ◌∷◌, ◌++◌, arith, leb, ◌==◌, ℤ, pos, negsuc, minus_one, below, ◌==ℤ◌, length, take, drop,
  length-take, length-drop, Bool-cases, Option-cases,
}
use mbed_ce_st87m.At.{ok, NsapiError, Trace, ◌>>=◌, at_cmd_discard}
use mbed_ce_st87m.Stack.Types.{
  RxBuffer, Stack, Env, Socket, update_at, update_at_self, max_sockets, find, set_socket,
  update_handle,
}
use mbed_ce_st87m.Stack.Slots.{available, is_empty, free_rx_buffer, free_slot, allocate_rx_buffer}
use mbed_ce_st87m.Stack.Slots.Pool.{PoolLaws, IsAccounted, allocate_rx_buffer-never_exhausted}
use mbed_ce_st87m.Stack.Valid.{IsBuffer}
use mbed_ce_st87m.Stack.Lifecycle.{
  start_socket, allocate, register, set_sslctxid, release_slot, close_on_modem, close_found,
  socket_close_impl,
}
use mbed_ce_st87m.Stack.Receive.{copied_from, reset_if_empty, advanced}

-- The bytes of a buffer that have not been handed out.
abbrev pub unread : RxBuffer → List ℕ
unread b = take (b.tail - b.head) (drop b.head b.bytes)

take-nil : (k : ℕ) → take {A = ℕ} k [] ≡ []
take-nil zero = refl
take-nil (suc k) = refl

take-cons : (k n : ℕ) (x : ℕ) (xs : List ℕ) → k ≡ suc n → take k (x ∷ xs) ≡ x ∷ take n xs
take-cons k n x xs e = rw e refl

pub take-length-append : (xs ys : List ℕ) → take (length xs) (xs ++ ys) ≡ xs
take-length-append [] ys = refl
take-length-append (x ∷ xs) ys =
    take-cons (length (x ∷ xs)) (length xs) x (xs ++ ys) (omega arith)
    ∙ ap (λ zs. x ∷ zs) (take-length-append xs ys)

take-split : (m n : ℕ) (xs : List ℕ) → take n xs ++ take m (drop n xs) ≡ take (n + m) xs
take-split m zero xs = ap (λ k. take k xs) (omega arith)
take-split m (suc n) [] = take-nil m ∙ sym (take-nil (suc n + m))
take-split m (suc n) (x ∷ xs) =
    ap (◌∷◌ x) (take-split m n xs) ∙ sym (take-cons (suc n + m) (n + m) x xs (omega arith))

drop-nil : (k : ℕ) → drop {A = ℕ} k [] ≡ []
drop-nil zero = refl
drop-nil (suc k) = refl

drop-cons : (k n : ℕ) (x : ℕ) (xs : List ℕ) → k ≡ suc n → drop k (x ∷ xs) ≡ drop n xs
drop-cons k n x xs e = rw e refl

drop-drop : (m n : ℕ) (xs : List ℕ) → drop m (drop n xs) ≡ drop (n + m) xs
drop-drop m zero xs = ap (λ k. drop k xs) (omega arith)
drop-drop zero (suc n) [] = sym (drop-nil (suc n + 0))
drop-drop (suc m) (suc n) [] = sym (drop-nil (suc n + suc m))
drop-drop m (suc n) (x ∷ xs) =
    drop-drop m n xs ∙ sym (drop-cons (suc n + m) (n + m) x xs (omega arith))

module _ (b : RxBuffer) (want : ℕ) where
  unread-unfilled :
      is_empty (record b { head = b.head + min (available b) want }) ≡ true
      → b.tail - (b.head + min (available b) want) ≡ 0
  unread-unfilled e = ground arith

  unread-advanced :
      unread (advanced b want)
      ≡ take
          (b.tail - (b.head + min (available b) want))
          (drop (b.head + min (available b) want) b.bytes)
  unfolding advanced reset_if_empty
  unread-advanced =
      elim (Bool-cases (is_empty (record b { head = b.head + min (available b) want }))) [
        | inl e ↦ rw (e, unread-unfilled e) refl
        | inr e ↦ rw e refl
      ]

  -- What is copied to the caller, and what stays in the buffer for the next call, are together the
  -- bytes that were unread before, in order: none is lost, repeated or invented. The copy has as
  -- many bytes as were asked for, or all of them if there are fewer.
  pub copied_from-advanced :
      (n : ℕ)
      → IsBuffer n b
      → (copied_from b want ++ unread (advanced b want) ≡ unread b)
        × (length (copied_from b want) ≡ min (available b) want)
  unfolding copied_from
  copied_from-advanced n w = (
    ap (λ (u : List ℕ). take (min (available b) want) (drop b.head b.bytes) ++ u)
          (unread-advanced
            ∙ ap (λ (u : List ℕ). take (b.tail - (b.head + min (available b) want)) u)
                (sym (drop-drop (min (available b) want) b.head b.bytes)))
        ∙ take-split (b.tail - (b.head + min (available b) want)) (min (available b) want)
            (drop b.head b.bytes)
        ∙ ap (λ k. take k (drop b.head b.bytes)) (omega arith),
    omega (
      arith,
      length-take (min (available b) want) (drop b.head b.bytes),
      length-drop b.head b.bytes,
      w.ordered,
      w.inside,
    ),
  )

update_handle_self : (f : ℕ → Socket) (h : ℕ) (v : Socket) → update_handle f h v h ≡ v
update_handle_self f h v = ground arith

suc_not_zero : (n : ℕ) → (suc n == 0) ≡ false
suc_not_zero n = ground arith

module _ {P : Type 0} (env : Env P) where
  -- set_sslctxid leaves a profile from -1 to 15, whatever it is given, when the configured default
  -- is one.
  pub set_sslctxid_bounds :
      (k : ℤ) (s : Stack P)
      → (env.default_sslctx ==ℤ minus_one) ≡ true ⊎ below env.default_sslctx 16 ≡ true
      → ((set_sslctxid env k s).sslctx_id ==ℤ minus_one) ≡ true
        ⊎ below (set_sslctxid env k s).sslctx_id 16 ≡ true
  unfolding set_sslctxid
  set_sslctxid_bounds (pos n) s h = elim (Bool-cases (leb n 15)) [
    | inl e ↦ rw e (inr (ground arith))
    | inr e ↦ rw e h
  ]
  set_sslctxid_bounds (negsuc zero) s h = inl refl
  set_sslctxid_bounds (negsuc (suc n)) s h = rw (suc_not_zero n) h

  freed :
      (k : ℤ) (s : Stack P) → below k max_sockets ≡ true → (free_rx_buffer env k s).rx_buf k ≡ none
  unfolding free_rx_buffer
  freed k s h = elim (Option-cases (s.rx_buf k)) [
    | inl e ↦ rw (h, e, free_slot) e
    | inr (b, e) ↦ rw (h, e, free_slot) (update_at_self s.rx_buf k none)
  ]

  freed_profile :
      (k j : ℤ) (s : Stack P) → (free_rx_buffer env k s).socket_sslctx j ≡ s.socket_sslctx j
  unfolding free_rx_buffer
  freed_profile k j s = elim (Bool-cases (below k max_sockets)) [
    | inr h ↦ rw h refl
    | inl h ↦ elim (Option-cases (s.rx_buf k)) [
      | inl e ↦ rw (h, e, free_slot) refl
      | inr (b, e) ↦ rw (h, e, free_slot) refl
    ]
  ]

  close_on_modem-releases :
      (k : ℤ) (s : Stack P) (t : Trace)
      → below k max_sockets ≡ true
      → let (err, s', t') = close_on_modem env k s t in
        (s'.rx_buf k ≡ none)
        × (s'.socket_sslctx k ≡ minus_one)
        × (err ≡ env.modem.discard_error (at_cmd_discard "#SOCKETCLOSE" "=" (s.cid ∷ k ∷ []) ∷ t))
  unfolding close_on_modem release_slot ◌>>=◌
  close_on_modem-releases k s t h =
      let s' : Stack P = record s { socket_sslctx = update_at s.socket_sslctx k minus_one } in
      rw h (freed k s' h, freed_profile k k s' ∙ update_at_self s.socket_sslctx k minus_one, refl)

  -- Closing an id from 0 to 6 that no socket has, or whose socket is not closed yet, leaves the id
  -- with no receive buffer and no TLS profile, whatever the modem answers.
  pub socket_close_impl-releases :
      (k : ℤ) (s : Stack P) (t : Trace)
      → below k max_sockets ≡ true
      → ((h : ℕ) → find env s k ≡ some h → (s.sockets h).closed ≡ false)
      → ((socket_close_impl env k s t).1.rx_buf k ≡ none)
        × ((socket_close_impl env k s t).1.socket_sslctx k ≡ minus_one)
  unfolding socket_close_impl close_found ◌>>=◌
  socket_close_impl-releases k s t within live = elim (Option-cases (find env s k)) [
    | inl e ↦ let r = close_on_modem-releases k s t within in rw e (r.0, r.1)
    | inr (h, e) ↦
        let s' : Stack P = set_socket h (record (s.sockets h) { txfull_event = false }) s in
        let r = close_on_modem-releases k s' t within in rw (e, live h e) (r.0, r.1)
  ]

  abbrev pub IsRegistered : ℕ → ℤ → NsapiError → Stack P → Type 0
  IsRegistered h k err s = (err ≡ ok) × ((s.sockets h).id ≡ k) × ((s.sockets h).started ≡ true)

  start_socket-IsRegistered :
      (h : ℕ) (k : ℤ) (s : Stack P) (t : Trace)
      → IsRegistered h k (start_socket env h k s t).0 (start_socket env h k s t).1
  unfolding start_socket ◌>>=◌
  start_socket-IsRegistered h k s t =
      let sock : Socket = record (s.sockets h) { id = k; started = true } in
      let q = update_handle_self s.sockets h sock in
      (refl, ap (λ (v : Socket). v.id) q, ap (λ (v : Socket). v.started) q)

  module _ (room : P → ℕ) (laws : PoolLaws env room) where
    -- While the pool keeps its laws and its blocks are accounted for, a socket that the modem has
    -- created is registered under its id without an error, whatever that id is: the branch that
    -- gives up for want of memory is not taken.
    pub register-ok :
        (h : ℕ) (ctx k : ℤ) (s : Stack P) (t : Trace)
        → IsAccounted env room laws s
        → IsRegistered h k (register env h ctx k s t).0 (register env h ctx k s t).1
    unfolding register allocate ◌>>=◌
    register-ok h ctx k s t inv =
        let s' : Stack P = record s { socket_sslctx = update_at s.socket_sslctx k ctx } in
        let got = (allocate_rx_buffer-never_exhausted env room laws k s' inv).0 in
        elim (Bool-cases (below k max_sockets)) [
          | inl e ↦
              rw (e, got ∙ e) (start_socket-IsRegistered h k (allocate_rx_buffer env k s').1 t)
          | inr e ↦ rw e (start_socket-IsRegistered h k s t)
        ]
