-- ===== src/Service/Contexts/Deleted.antt =====
-- A push to a service in skynet-src/service.cpp deletes its context, which stays in the table of handles.
use skynet_cpp.Prelude.{
  ℕ, ◌==◌, ◌≡◌, refl, sym, ap, ◌∙◌, Bool, true, false, Option, none, some, arith, inl, inr, get_or,
  Bool-cases, Option-cases,
}
use skynet_cpp.Prelude.Run.{Fault, Run, ok, fault, deleted_object, ◌>>=◌, ◌>>◌}
use skynet_cpp.Prelude.Run.Ensures.{
  Ensures, Ensures-ok, Ensures-fault, Ensures-if, Ensures-bind, Ensures-map,
}
use skynet_cpp.Handle.Storage.{Storage, Memory, lock}
use skynet_cpp.Handle.Slots.{hash_of, find, grab, match_handle}
use skynet_cpp.Handle.Retire.{release}
use skynet_cpp.Mq.MessageQueue.{Message, World, mark_release}
use skynet_cpp.Mq.MessageQueue
use skynet_cpp.Service.Contexts.{
  System, live, delete_context, finish, release_context, touch, grab_context, context_push,
}

-- any fault
abbrev pub Any : Fault → Type 0
Any e = Unit {0}

-- the slot that a handle is looked up in
abbrev pub slot_of : ℕ → System → Option ℕ
slot_of handle w = get_or w.storage.slot (hash_of w.storage.slot handle) none

pub anything : {A : Type 0} (r : Run A) → Ensures Any (λ a. r ≡ ok a) r
anything (ok a) = Ensures-ok refl
anything (fault e) = Ensures-fault tt

find-slot :
    (s : Storage) (m : Memory) (handle c : ℕ)
    → find s m handle ≡ some c
    → get_or s.slot (hash_of s.slot handle) none ≡ some c
unfolding find
find-slot s m handle c e = matched (get_or s.slot (hash_of s.slot handle) none) e
  where
    matched : (o : Option ℕ) → match_handle m handle o ≡ some c → o ≡ some c
    matched none e = absurd (cc e)
    matched (some d) e = elim (Bool-cases ((m d).handle == handle)) [
      | inl on ↦ rw on at e
      | inr off ↦ absurd (cc (rw off at e))
    ]

touch-deleted :
    (handle c : ℕ) (w : System)
    → slot_of handle w ≡ some c
    → (w.context c).deleted ≡ true
    → touch handle w ≡ fault deleted_object
touch-deleted handle c w e gone = rw (touch, e, gone) refl

-- A context that is deleted stops the next lookup that reads it.
grab_context-deleted :
    (handle c : ℕ) (w : System)
    → w.storage.locked ≡ false
    → slot_of handle w ≡ some c
    → (w.context c).deleted ≡ true
    → grab_context handle w ≡ fault deleted_object
unfolding grab_context
grab_context-deleted handle c w unlocked e gone =
    rw (grab_context, touch-deleted handle c w e gone, unlocked) refl

grab-found :
    (s : Storage) (m : Memory) (handle : ℕ)
    → Ensures Any (λ r. r.0 ≡ find s m handle) (grab s m handle)
unfolding grab
grab-found s m handle = elim (Option-cases (find s m handle)) [
  | inl e ↦ rw (grab, e) (Ensures-bind (anything (lock s)) (λ a h. Ensures-ok refl))
  | inr (c, e) ↦ rw (grab, e) (Ensures-bind (anything (lock s)) (λ a h. Ensures-ok refl))
]

grab_context-slot :
    (handle : ℕ) (w : System)
    → Ensures Any
        (λ r. (r.1.storage ≡ w.storage) × ((c : ℕ) → r.0 ≡ some c → slot_of handle w ≡ some c))
        (grab_context handle w)
unfolding grab_context
grab_context-slot handle w = Ensures-bind (anything (lock w.storage >> touch handle w)) (λ a h.
    Ensures-bind (grab-found w.storage w.memory handle) (λ r found.
      Ensures-ok (refl, (λ c e. find-slot w.storage w.memory handle c (sym found ∙ e)))))

pub delete_context-Deleted :
    (c : ℕ) (w : System)
    → Ensures Any
        (λ w'. (w'.storage ≡ w.storage) × ((w'.context c).deleted ≡ true))
        (delete_context c w)
delete_context-Deleted c w =
    let on : (c == c) ≡ true = ground arith in
    Ensures-bind (anything (live c w)) (λ a h. Ensures-ok (refl, rw on refl))

delete_context-storage :
    (c : ℕ) (w : System) → Ensures Any (λ w'. w'.storage ≡ w.storage) (delete_context c w)
delete_context-storage c w = Ensures-map (λ w' h. h.0) (delete_context-Deleted c w)

-- the storage stays
pub finish-Deleted :
    (c : ℕ) (w : System) → Ensures Any (λ w'. (w'.context c).deleted ≡ true) (finish c w)
unfolding finish
finish-Deleted c w = Ensures-bind (anything (mark_release (w.context c).queue w.world)) (λ q h.
    Ensures-bind (delete_context-Deleted c (record w { world = q })) (λ w' gone. Ensures-ok gone.1))

finish-storage : (c : ℕ) (w : System) → Ensures Any (λ w'. w'.storage ≡ w.storage) (finish c w)
unfolding finish
finish-storage c w = Ensures-bind (anything (mark_release (w.context c).queue w.world)) (λ q h.
    Ensures-bind (delete_context-storage c (record w { world = q })) (λ w' same. Ensures-ok same))

release_context-storage :
    (c : ℕ) (w : System) → Ensures Any (λ r. r.1.storage ≡ w.storage) (release_context c w)
unfolding release_context
release_context-storage c w = Ensures-bind (anything (live c w)) (λ a h.
    Ensures-if (release w.memory c).1
      (λ last.
        Ensures-bind (finish-storage c (record w { memory = (release w.memory c).0 }))
          (λ w' same. Ensures-ok same))
      (λ more. Ensures-ok refl))

context_push-stops :
    (handle c : ℕ) (msg : Message) (w : System)
    → w.storage.locked ≡ false
    → slot_of handle w ≡ some c
    → (w.context c).deleted ≡ true
    → context_push handle msg w ≡ fault deleted_object
unfolding context_push
context_push-stops handle c msg w unlocked e gone =
    rw (context_push, grab_context-deleted handle c w unlocked e gone) refl

context_push-Deleted :
    (handle : ℕ) (msg : Message) (w : System)
    → w.storage.locked ≡ false
    → Ensures Any
        (λ r.
          r.0 ≡ true
          → (c : ℕ) × (r.1.storage.locked ≡ false)
            × (slot_of handle r.1 ≡ some c)
            × ((r.1.context c).deleted ≡ true))
        (context_push handle msg w)
unfolding context_push
context_push-Deleted handle msg w unlocked =
    Ensures-bind (grab_context-slot handle w) (λ r h. pushed r.0 r.1 h.0 h.1)
  where
    pushed :
        (found : Option ℕ) (w1 : System)
        → w1.storage ≡ w.storage
        → ((c : ℕ) → found ≡ some c → slot_of handle w ≡ some c)
        → Ensures Any
            (λ r.
              r.0 ≡ true
              → (c : ℕ) × (r.1.storage.locked ≡ false)
                × (slot_of handle r.1 ≡ some c)
                × ((r.1.context c).deleted ≡ true))
            (elim found as (λ o. Run (Bool × System)) [
              | none ↦ ok (false, w1)
              | some c ↦ MessageQueue.push (w1.context c).queue msg w1.world >>= λ q.
                  release_context c (record w1 { world = q }) >>= λ (kept, w2).
                  delete_context c w2 >>= λ w3. ok (true, w3)
            ])
    pushed none w1 same slot = Ensures-ok (λ e. absurd (cc e))
    pushed (some c) w1 same slot =
        Ensures-bind (anything (MessageQueue.push (w1.context c).queue msg w1.world)) (λ q h.
          Ensures-bind (release_context-storage c (record w1 { world = q })) (λ r kept.
            Ensures-bind (delete_context-Deleted c r.1) (λ w3 gone.
              let stays : w3.storage ≡ w.storage = gone.0 ∙ kept ∙ same in
              Ensures-ok (λ e. (
                c,
                ap (λ s. s.locked) stays ∙ unlocked,
                ap (λ s. get_or s.slot (hash_of s.slot handle) none) stays ∙ slot c refl,
                gone.1,
              )))))

-- When ContextPush has delivered a message to a handle, on a table of handles that is not locked,
-- the next push to this handle reads the deleted context.
pub context_push-again :
    (handle : ℕ) (msg next : Message) (w w' : System)
    → w.storage.locked ≡ false
    → context_push handle msg w ≡ ok (true, w')
    → context_push handle next w' ≡ fault deleted_object
context_push-again handle msg next w w' unlocked e =
    let after : Ensures Any Again (ok (true, w')) =
      rw e at (context_push-Deleted handle msg w unlocked) in
    let (c, open_, slot, gone) = after.holds refl in
    context_push-stops handle c next w' open_ slot gone
  where
    Again : Bool × System → Type 0
    Again r =
        r.0 ≡ true
        → (c : ℕ) × (r.1.storage.locked ≡ false)
          × (slot_of handle r.1 ≡ some c)
          × ((r.1.context c).deleted ≡ true)
