-- ===== src/JobInput/Content.antt =====
-- The bytes in a Job's input channel, and what a request adds to them.
use mira_bridge.Base.{
  ℕ, ◌+◌, ◌≡◌, refl, sym, ap, ◌∙◌, subst, Bool, true, false, Option, none, some, List, [], ◌∷◌,
  ◌++◌, length, flatten, flatten-append, if◌then◌else◌, if_true, if_false, Result, ok, err,
  Bool-cases, inl, inr,
}
use mathlib.Core.List.{append_assoc, append-nil}
use mira_bridge.Protocol.Errors.{BridgeError, Thrown, as_bridge_error}
use mira_bridge.JobInput.{
  Bytes, Message, Reply, refused, Output, writes, closes, resizes, Effect, write, close_input,
  resize, flush, Channel, reply, enqueue, is_resize, check_input, on_size, on_input, after_data,
  receive,
}
use mira_bridge.JobInput.Delivery.{Event, message, step}

-- The bytes that the target has been given.
unfoldable pub written : List Output → Bytes
written [] = []
written (writes bytes ∷ rest) = bytes ++ written rest
written (_ ∷ rest) = written rest

-- The bytes that an effect is still to write.
abbrev pub carried : Effect → Bytes
carried (write bytes closing) = bytes
carried (flush chunks) = flatten chunks
carried _ = []

unfoldable pub in_delivery : List Effect → Bytes
in_delivery [] = []
in_delivery (e ∷ es) = carried e ++ in_delivery es

-- The bytes that have been accepted: given to the target, in the chain, or in the buffer.
unfoldable pub content : Channel → Bytes
unfolding written in_delivery
content c = written c.output ++ (in_delivery c.delivery ++ flatten c.buffered)

-- The abstract queue: the bytes that an event adds to it.
unfoldable pub taken : Result BridgeError (Bytes × Bool) → Bytes
taken (err e) = []
taken (ok request) = request.0

unfoldable pub accepted : Event → Channel → Bytes
unfolding taken
accepted (message m) c = if is_resize m then [] else taken (check_input m c)
accepted _ c = []

unfoldable pub accepted_by : List Event → Channel → Bytes
unfolding accepted
accepted_by [] c = []
accepted_by (e ∷ es) c = accepted e c ++ accepted_by es (step e c)

-- Before the attachment nothing is in the chain, after it nothing in the buffer, and no effect of a
-- request has failed.
pub record Sound (c : Channel) : Type 0 where
  pub unbroken : c.failed ≡ none
  pub idle : c.attached ≡ false → c.delivery ≡ []
  pub unbuffered : c.attached ≡ true → c.buffered ≡ []

pub written-append : (a b : List Output) → written (a ++ b) ≡ written a ++ written b
unfolding written
written-append [] b = refl
written-append (writes bytes ∷ a) b =
    ap (λ t. bytes ++ t) (written-append a b) ∙ sym (append_assoc bytes (written a) (written b))
written-append (closes ∷ a) b = written-append a b
written-append (resizes x y ∷ a) b = written-append a b

pub in_delivery-append : (a b : List Effect) → in_delivery (a ++ b) ≡ in_delivery a ++ in_delivery b
unfolding in_delivery
in_delivery-append [] b = refl
in_delivery-append (e ∷ a) b =
    ap (λ t. carried e ++ t) (in_delivery-append a b)
    ∙ sym (append_assoc (carried e) (in_delivery a) (in_delivery b))

-- From a state to another that has the bytes of the first and more.
pub record Grows (bytes : Bytes) (c c' : Channel) : Type 0 where
  pub sound : Sound c'
  pub grown : content c' ≡ content c ++ bytes

pub same-Grows : (c : Channel) → Sound c → Grows [] c c
same-Grows c s = record { sound = s; grown = sym (append-nil (content c)) }

pub reply-Grows :
    (r : Reply) (bytes : Bytes) (c c' : Channel) → Grows bytes c c' → Grows bytes c (reply r c')
unfolding content
reply-Grows r bytes c c' g = record {
  sound = record {
    unbroken = g.sound.unbroken;
    idle = g.sound.idle;
    unbuffered = g.sound.unbuffered;
  };
  grown = g.grown;
}

abbrev pushed : Effect → Channel → Channel
pushed e c = record c { delivery = c.delivery ++ e ∷ [] }

pub enqueue-pushed : (e : Effect) (c : Channel) → c.failed ≡ none → enqueue e c ≡ pushed e c
unfolding enqueue
enqueue-pushed e c h =
    ap
      (λ (f : Option Thrown). elim f as (λ _. Channel) [
        | none ↦ pushed e c
        | some t ↦ reply (refused (as_bridge_error t)) c
      ])
      h

enqueue-Grows :
    (e : Effect) (c : Channel) → Sound c → c.attached ≡ true → Grows (carried e) c (enqueue e c)
unfolding content in_delivery flatten
enqueue-Grows e c s a = subst (Grows (carried e) c) (sym (enqueue-pushed e c s.unbroken)) (record {
  sound = record { unbroken = s.unbroken; idle = λ h. cc; unbuffered = s.unbuffered };
  grown =
      rw (in_delivery-append, s.unbuffered a, append-nil, append-nil, append-nil, append_assoc)
        refl;
})

-- The bytes go to the buffer before the attachment.
buffer-Grows :
    (bytes : Bytes) (count : ℕ) (c : Channel)
    → Sound c
    → c.attached ≡ false
    → Grows bytes c (record c { buffered = c.buffered ++ bytes ∷ []; buffered_bytes = count })
unfolding content in_delivery flatten
buffer-Grows bytes count c s a = record {
  sound = record { unbroken = s.unbroken; idle = s.idle; unbuffered = λ h. cc };
  grown = rw (flatten-append, append-nil, append_assoc, append_assoc) refl;
}

-- Marking the input as closed changes no bytes.
pub Grows-close :
    (bytes : Bytes) (c c' : Channel)
    → Grows bytes c c'
    → Grows bytes c (record c' { input_closed = true })
unfolding content
Grows-close bytes c c' g = record {
  sound = record {
    unbroken = g.sound.unbroken;
    idle = g.sound.idle;
    unbuffered = g.sound.unbuffered;
  };
  grown = g.grown;
}

Grows-enqueue :
    (e : Effect) (bytes : Bytes) (c c' : Channel)
    → carried e ≡ []
    → c'.attached ≡ true
    → Grows bytes c c'
    → Grows bytes c (enqueue e c')
Grows-enqueue e bytes c c' empty a g =
    let more : Grows (carried e) c' (enqueue e c') = enqueue-Grows e c' g.sound a in
    record {
      sound = more.sound;
      grown = more.grown ∙ ap (λ t. content c' ++ t) empty ∙ append-nil (content c') ∙ g.grown;
    }

pub after_data-Grows :
    (count : ℕ) (closing : Bool) (bytes : Bytes) (c c' : Channel)
    → Grows bytes c c'
    → Grows bytes c (after_data count closing c')
unfolding after_data
after_data-Grows count false bytes c c' g = reply-Grows _ bytes c c' g
after_data-Grows count true bytes c c' g = elim (Bool-cases c'.attached) [
  | inl a ↦ subst (Grows bytes c) (sym (if_true c'.attached _ _ a)) (
      Grows-enqueue (close_input count) bytes c (record c' { input_closed = true }) refl a
        (Grows-close bytes c c' g))
  | inr n ↦
      subst (Grows bytes c) (sym (if_false c'.attached _ _ n))
        (reply-Grows _ bytes c (record c' { input_closed = true }) (Grows-close bytes c c' g))
]

on_input-Grows :
    (r : Result BridgeError (Bytes × Bool)) (c : Channel)
    → Sound c
    → Grows (taken r) c (on_input r c)
unfolding on_input taken
on_input-Grows (err e) c s = reply-Grows _ [] c c (same-Grows c s)
on_input-Grows (ok ([], closing)) c s = after_data-Grows 0 closing [] c c (same-Grows c s)
on_input-Grows (ok ((b ∷ bs), closing)) c s = elim (Bool-cases c.attached) [
  | inl a ↦
      subst (Grows (b ∷ bs) c) (sym (if_true c.attached _ _ a))
        (enqueue-Grows (write (b ∷ bs) closing) c s a)
  | inr n ↦ subst (Grows (b ∷ bs) c) (sym (if_false c.attached _ _ n)) (
      after_data-Grows (length (b ∷ bs)) closing (b ∷ bs) c _
        (buffer-Grows (b ∷ bs) (c.buffered_bytes + length (b ∷ bs)) c s n))
]

on_size-Grows : (r : Result BridgeError (ℕ × ℕ)) (c : Channel) → Sound c → Grows [] c (on_size r c)
unfolding on_size content
on_size-Grows (err e) c s = reply-Grows _ [] c c (same-Grows c s)
on_size-Grows (ok size) c s = elim (Bool-cases c.attached) [
  | inl a ↦
      subst (Grows [] c) (sym (if_true c.attached _ _ a))
        (enqueue-Grows (resize size.0 size.1) c s a)
  | inr n ↦ subst (Grows [] c) (sym (if_false c.attached _ _ n)) (record {
    sound = record { unbroken = s.unbroken; idle = s.idle; unbuffered = s.unbuffered };
    grown = sym (append-nil (content c));
  })
]

pub receive-Grows :
    (m : Message) (c : Channel) → Sound c → Grows (accepted (message m) c) c (receive m c)
unfolding receive accepted
receive-Grows m c s = elim (Bool-cases (is_resize m)) [
  | inl y ↦ rw y (on_size-Grows _ c s)
  | inr n ↦ rw n (on_input-Grows _ c s)
]
