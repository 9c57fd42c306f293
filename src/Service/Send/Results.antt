-- ===== src/Service/Send/Results.antt =====
-- What `ServiceSend` of skynet-src/service.cpp does with a message, and what a worker then reads of it.
use Prim.Native.Nat.{bit_and}
use native.Mathlib.Nat.{mod-lt}
use skynet_cpp.Prelude.{
  ℕ, ◌+◌, ◌/◌, ◌%◌, ◌^◌, ◌<◌, ◌==◌, if◌then◌else◌, ◌≡◌, ◌≢◌, refl, ap, ◌∙◌, true, false, Option,
  none, List, arith,
}
use native.Mathlib.Nat.{mod-eq_of_lt}
use skynet_cpp.Prelude.Bits.{bit_and-mask}
use skynet_cpp.Prelude.Run.{Run, ok, fault, null_pointer, assert, ◌>>=◌, ◌>>◌}
use skynet_cpp.Mq.MessageQueue.{Message}
use skynet_cpp.Service.Contexts.{System, put_context, live, context_push}
use skynet_cpp.Service.Send.{
  pack, copy_data, tag_dontcopy, tag_allocsession, message_type_mask, message_type_shift, minus_one,
  message_is_remote, filter_args, deliver, service_send,
}
use skynet_cpp.Service.Send.Packing.{unpack-pack}
use skynet_cpp.Service.Dispatch.{dispatch_message}

-- what a receiver gets of the data
abbrev pub received : ℕ → ℕ → Option (List ℕ) → Option (List ℕ)
received type sz bytes = copy_data (bit_and type tag_dontcopy == 0) sz bytes

filter_args-plain :
    (ctx : Option ℕ) (type session : ℕ) (bytes : Option (List ℕ)) (sz : ℕ) (w : System)
    → bit_and type tag_allocsession ≡ 0
    → filter_args ctx type session bytes sz w
      ≡ ok (session, received type sz bytes, pack sz (bit_and type 0xff), w)
unfolding filter_args
filter_args-plain ctx type session bytes sz w e = rw (filter_args, e) refl

service_send-deliver :
    (ctx : Option ℕ) (source destination type session : ℕ) (bytes : Option (List ℕ)) (sz : ℕ)
    (w : System)
    → sz < 2 ^ message_type_shift
    → source ≢ 0
    → destination ≢ 0
    → bit_and type tag_allocsession ≡ 0
    → service_send ctx source destination type session bytes sz w
      ≡ deliver source destination session (received type sz bytes) (pack sz (bit_and type 0xff)) w
unfolding service_send
service_send-deliver ctx source destination type session bytes sz w small from to plain =
    let whole : bit_and sz message_type_mask ≡ sz = bit_and-mask 56 sz ∙ mod-eq_of_lt small in
    let self : (sz == sz) ≡ true = ground arith in
    let given : (source == 0) ≡ false = ground arith in
    let named : (destination == 0) ≡ false = ground arith in
    rw
      (service_send, whole, self, filter_args-plain ctx type session bytes sz w plain, given, named)
      refl

deliver-remote :
    (source destination session : ℕ) (bytes : Option (List ℕ)) (sz : ℕ) (w : System)
    → message_is_remote destination w ≡ ok true
    → deliver source destination session bytes sz w ≡ fault null_pointer
unfolding deliver
deliver-remote source destination session bytes sz w e = rw (deliver, e) refl

deliver-local :
    (source destination session : ℕ) (bytes : Option (List ℕ)) (sz : ℕ) (w : System)
    → message_is_remote destination w ≡ ok false
    → deliver source destination session bytes sz w ≡ (
        context_push destination
          (record { source = source; session = session; data_bytes = bytes; sz = sz })
          w
        >>= λ (pushed, w'). ok (if pushed then (minus_one, w') else (session, w')))
unfolding deliver
deliver-local source destination session bytes sz w e = rw (deliver, e) refl

-- A message for a handle of another harbor, with a source and a destination that are not 0, no
-- request for a session and a size below 2 ^ 56, stops at a null pointer.
service_send-remote :
    (ctx : Option ℕ) (source destination type session : ℕ) (bytes : Option (List ℕ)) (sz : ℕ)
    (w : System)
    → sz < 2 ^ message_type_shift
    → source ≢ 0
    → destination ≢ 0
    → bit_and type tag_allocsession ≡ 0
    → message_is_remote destination w ≡ ok true
    → service_send ctx source destination type session bytes sz w ≡ fault null_pointer
service_send-remote ctx source destination type session bytes sz w small from to plain is_remote =
    service_send-deliver ctx source destination type session bytes sz w small from to plain
    ∙ deliver-remote source destination session (received type sz bytes)
        (pack sz (bit_and type 0xff)) w is_remote

-- a call of the code of a service, with the type and the size apart
abbrev pub handled :
    (ℕ → ℕ → ℕ → ℕ → Option (List ℕ) → ℕ → System → Run (ℕ × System))
    → ℕ
    → ℕ
    → Message
    → ℕ
    → System
    → Run (Message × System)
handled callback c type msg sz w =
    let x = w.context c in
    let counted = put_context c (record x { message_count = (x.message_count + 1) % 2 ^ 32 }) w in
    live c w
    >> assert x.init
    >> (callback c type msg.session msg.source msg.data_bytes sz counted >>= λ (reserve_msg, w').
        ok (if reserve_msg == 0 then (record msg { data_bytes = none }, w') else (msg, w')))

dispatch_message-handled :
    (callback : ℕ → ℕ → ℕ → ℕ → Option (List ℕ) → ℕ → System → Run (ℕ × System)) (c type sz : ℕ)
    (msg : Message) (w : System)
    → msg.sz / 2 ^ message_type_shift ≡ type
    → bit_and msg.sz message_type_mask ≡ sz
    → dispatch_message callback c msg w ≡ handled callback c type msg sz w
unfolding dispatch_message
dispatch_message-handled callback c type sz msg w e f = rw (e, f) refl

-- A message for a handle of this harbor, with a source and a destination that are not 0, no request
-- for a session and a size below 2 ^ 56, is pushed with its source, its session and its data, of
-- which a copy is made unless the type says not to; the result is -1 if it was pushed, and the
-- session if no service has the handle. A worker that dispatches it calls the service with the low
-- byte of the type and with the size that were given.
pub service_send-received :
    (ctx : Option ℕ) (source destination type session : ℕ) (bytes : Option (List ℕ)) (sz : ℕ)
    (w : System)
    → sz < 2 ^ message_type_shift
    → source ≢ 0
    → destination ≢ 0
    → bit_and type tag_allocsession ≡ 0
    → message_is_remote destination w ≡ ok false
    → (msg : Message) × (msg.source ≡ source)
      × (msg.session ≡ session)
      × (msg.data_bytes ≡ received type sz bytes)
      × (service_send ctx source destination type session bytes sz w ≡ (
          context_push destination msg w >>= λ (pushed, w').
          ok (if pushed then (minus_one, w') else (session, w'))))
      × ((callback : ℕ → ℕ → ℕ → ℕ → Option (List ℕ) → ℕ → System → Run (ℕ × System)) (c : ℕ)
            (v : System)
          → dispatch_message callback c msg v ≡ handled callback c (type % 2 ^ 8) msg sz v)
service_send-received ctx source destination type session bytes sz w small from to plain local =
    let byte : bit_and type 0xff ≡ type % 2 ^ 8 = bit_and-mask 8 type in
    let (size, kind) = unpack-pack sz (type % 2 ^ 8) small (mod-lt type (omega arith)) in
    let msg : Message = record {
      source = source;
      session = session;
      data_bytes = received type sz bytes;
      sz = pack sz (type % 2 ^ 8);
    } in
    (
      msg,
      refl,
      refl,
      refl,
      service_send-deliver ctx source destination type session bytes sz w small from to plain
          ∙ ap (λ b. deliver source destination session (received type sz bytes) (pack sz b) w) byte
          ∙ deliver-local source destination session (received type sz bytes)
              (pack sz (type % 2 ^ 8)) w local,
      (λ callback c v. dispatch_message-handled callback c (type % 2 ^ 8) sz msg v kind size),
    )
