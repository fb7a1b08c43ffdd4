-- ===== src/VolumeServer/Client.antt =====
-- The client of a volume server against the manager behind the server: printing the query and
-- parsing it, the status codes and the replies add nothing and lose nothing.
use brisedb.Prelude.{
  ℕ, ◌^◌, ◌<◌, ◌≡◌, ◌↔◌, refl, ap, ◌∙◌, inl, inr, Bool, true, false, some, Bytes, if◌then◌else◌,
  nat_eq, Bool-cases, arith,
}
use brisedb.Types.{NeedleAddr, Result, ok, err, panic, unreachable}
use brisedb.Decimal.{print, parse_uint-print, print_is_some}
use brisedb.Volumes.{VolumeManager, write_to_volume, read}
use brisedb.VolumeServer.{
  Method, Response, Trip, handle_write, handle_read, write_reply, read_reply, write_result,
  read_result, client_write_to_volume, client_read, answered,
}

handle_write-print :
    (t : Trip) (id : ℕ) (d : Bytes) (vm : VolumeManager)
    → id < 2 ^ 32
    → handle_write t.header t.body Method.post (some d) (print id) vm
      ≡ write_reply (write_to_volume t.header t.body id d vm)
unfolding handle_write
handle_write-print t id d vm h =
    rw (parse_uint-print 32 id h (omega arith)) ground (arith, print_is_some id)

handle_read-print :
    (a : NeedleAddr) (vm : VolumeManager)
    → a.volume_id < 2 ^ 32
    → a.offset < 2 ^ 64
    → a.size < 2 ^ 64
    → handle_read Method.get (print a.volume_id) (print a.offset) (print a.size) vm
      ≡ read_reply (read a vm)
unfolding handle_read
handle_read-print a vm h i j =
    rw (parse_uint-print 32 a.volume_id h (omega arith), handle_read)
      (rw (parse_uint-print 64 a.offset i i) (rw (parse_uint-print 64 a.size j j) refl))

written-reply :
    (r : VolumeManager × Result NeedleAddr) (a : NeedleAddr)
    → (write_result (write_reply r).1 ≡ ok a) ↔ (r.1 ≡ ok a)
written-reply (vm, ok b) a = (λ e. e, λ e. e)
written-reply (vm, err x) a = ground arith
written-reply (vm, panic) a = ground arith

read-reply :
    (r : VolumeManager × Result Bytes) (d : Bytes)
    → (read_result (read_reply r).1 ≡ ok d) ↔ (r.1 ≡ ok d)
read-reply (vm, ok b) a = (λ e. e, λ e. e)
read-reply (vm, err x) a = ground arith
read-reply (vm, panic) a = ground arith

write_reply-state : (r : VolumeManager × Result NeedleAddr) → (write_reply r).0 ≡ r.0
write_reply-state (vm, ok b) = refl
write_reply-state (vm, err x) = refl
write_reply-state (vm, panic) = refl

read_reply-state : (r : VolumeManager × Result Bytes) → (read_reply r).0 ≡ r.0
read_reply-state (vm, ok b) = refl
read_reply-state (vm, err x) = refl
read_reply-state (vm, panic) = refl

answered-state {ℓ} :
    {A : Type ℓ} (b : Bool) (f : Response → Result A) (r : VolumeManager × Response)
    → (answered b f r).0 ≡ r.0
answered-state true f (vm, r) = refl
answered-state false f (vm, r) = refl

answered_yes {ℓ} :
    {A : Type ℓ} (f : Response → Result A) (r : VolumeManager × Response)
    → (answered true f r).1 ≡ f r.1
answered_yes f (vm, r) = refl

answered_no {ℓ} :
    {A : Type ℓ} (f : Response → Result A) (r : VolumeManager × Response)
    → (answered false f r).1 ≡ err unreachable
answered_no f (vm, r) = refl

-- A write that arrives is done by the server, answered or not.
pub client_write_to_volume-state :
    (t : Trip) (id : ℕ) (d : Bytes) (vm : VolumeManager)
    → id < 2 ^ 32
    → t.arrives ≡ true
    → (client_write_to_volume t id d vm).0 ≡ (write_to_volume t.header t.body id d vm).0
unfolding client_write_to_volume
client_write_to_volume-state t id d vm h k = rw k (
    answered-state t.answers write_result
      (handle_write t.header t.body Method.post (some d) (print id) vm)
    ∙ ap (λ (x : VolumeManager × Response). x.0) (handle_write-print t id d vm h)
    ∙ write_reply-state (write_to_volume t.header t.body id d vm))

pub client_write_to_volume-result :
    (t : Trip) (id : ℕ) (d : Bytes) (vm : VolumeManager) (a : NeedleAddr)
    → id < 2 ^ 32
    → t.arrives ≡ true
    → t.answers ≡ true
    → ((client_write_to_volume t id d vm).1 ≡ ok a)
      ↔ ((write_to_volume t.header t.body id d vm).1 ≡ ok a)
unfolding client_write_to_volume
client_write_to_volume-result t id d vm a h k l =
    rw
      (
        k,
        l,
        handle_write-print t id d vm h,
        answered_yes write_result (write_reply (write_to_volume t.header t.body id d vm)),
      )
      (written-reply (write_to_volume t.header t.body id d vm) a)

pub client_read-state :
    (t : Trip) (a : NeedleAddr) (vm : VolumeManager)
    → a.volume_id < 2 ^ 32
    → a.offset < 2 ^ 64
    → a.size < 2 ^ 64
    → (client_read t a.volume_id a.offset a.size vm).0 ≡ (if t.arrives then (read a vm).0 else vm)
unfolding client_read
client_read-state t a vm h i j = elim (Bool-cases t.arrives) [
  | inr lost ↦ rw lost refl
  | inl here ↦
      let q = handle_read Method.get (print a.volume_id) (print a.offset) (print a.size) vm in
      rw here (
        answered-state t.answers read_result q
        ∙ ap (λ (x : VolumeManager × Response). x.0) (handle_read-print a vm h i j)
        ∙ read_reply-state (read a vm))
]

-- The client reads a blob exactly where the request arrives, the response arrives, and the manager
-- behind the server reads that blob; for an address of numbers of its types.
pub client_read-result :
    (t : Trip) (a : NeedleAddr) (vm : VolumeManager) (d : Bytes)
    → a.volume_id < 2 ^ 32
    → a.offset < 2 ^ 64
    → a.size < 2 ^ 64
    → ((client_read t a.volume_id a.offset a.size vm).1 ≡ ok d)
      ↔ ((t.arrives ≡ true) × (t.answers ≡ true) × ((read a vm).1 ≡ ok d))
unfolding client_read
client_read-result t a vm d h i j = elim (Bool-cases t.arrives) [
  | inr lost ↦ rw lost (λ e. absurd (ground (arith, e)), λ e. absurd (ground (arith, e)))
  | inl here ↦ elim (Bool-cases t.answers) [
    | inr mute ↦
        let q = handle_read Method.get (print a.volume_id) (print a.offset) (print a.size) vm in
        rw (here, mute, answered_no read_result q)
          (λ e. absurd (ground (arith, e)), λ e. absurd (ground (arith, e)))
    | inl heard ↦
        rw
          (
            here,
            heard,
            handle_read-print a vm h i j,
            answered_yes read_result (read_reply (read a vm)),
          )
          (λ e. (refl, refl, (read-reply (read a vm) d).0 e), λ e. (read-reply (read a vm) d).1 e.2)
  ]
]
