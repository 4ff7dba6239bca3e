-- ===== src/Socket/Descriptor/Bodies.antt =====
-- The parts of the calls on a descriptor (net/socket.c): how each keeps the references and the log.
use oshm.Prelude.{
  ◌≤◌, ◌≡◌, inl, inr, refl, sym, neg, enotsock, einval, Bool, true, false, not, ◌&&◌, Bool-cases,
  Option, none, some, List, ◌∷◌, if◌then◌else◌, ℤ, pos, negsuc, eqb_ℤ, eqb_ℤ_iff, ltb_ℤ, leb_ℤ,
  arith,
}
use mathlib.Core.Path.{subst}
use oshm.Sock.Options.{to_u32}
use oshm.Socket.Descriptor.{
  Op, bind, connect, listen, sendmsg, setsockopt, getsockopt, sock_setsockopt, sock_getsockopt,
  hook_of, Event, asked, called, State, Outside, with_socket, permitted, move_addr_to_kernel,
  move_addr_to_user, bounded, ask, on_file, and_put, get_file, connect_on, then_to_user, name_of,
  send_to, from_whom, after_program, set_after, set_on, get_on, after_bpf,
}

-- The length of an address is within its structure, and a backlog within the limit of the system.
abbrev pub Fits : Outside → Op → ℤ → Type 0
Fits o bind n = (leb_ℤ (pos 0) n && leb_ℤ n (pos 128)) ≡ true
Fits o connect n = (leb_ℤ (pos 0) n && leb_ℤ n (pos 128)) ≡ true
Fits o sendmsg n = (leb_ℤ (pos 0) n && leb_ℤ n (pos 128)) ≡ true
Fits o listen n = to_u32 n ≤ o.somaxconn
Fits o op n = Unit {0}

-- A call has done nothing, has asked a hook, or has asked it, was let, and has called the operation.
pub data Done (o : Outside) : List Event → List Event → Type 0 where
  nothing : {l : List Event} → Done o l l
  asks : {l : List Event} (op : Op) → Done o l (asked op ∷ l)
  acts :
      {l : List Event} (op : Op) (n : ℤ)
      → o.security (hook_of op) ≡ pos 0
      → Fits o op n
      → Done o l (called op n ∷ asked (hook_of op) ∷ l)

-- Between `st` and the state of the reply; the references to files are the same.
pub record IsOrderly (o : Outside) (st : State) (r : ℤ × State) : Type 0 where
  pub refs : r.1.refs ≡ st.refs
  pub done : Done o st.log r.1.log

pub unmoved : (o : Outside) (st : State) (e : ℤ) → IsOrderly o st (e, st)
unmoved o st e = record { refs = refl; done = nothing }

pub if-IsOrderly :
    {o : Outside} {st : State} (b : Bool) {x y : ℤ × State}
    → (b ≡ true → IsOrderly o st x)
    → (b ≡ false → IsOrderly o st y)
    → IsOrderly o st (if b then x else y)
if-IsOrderly true h k = h refl
if-IsOrderly false h k = k refl

pub permitted-IsOrderly :
    (o : Outside) (op : Op) (n : ℤ) (st : State)
    → Fits o op n
    → IsOrderly o st (permitted o op n st)
unfolding permitted
permitted-IsOrderly o op n st h =
    if-IsOrderly (eqb_ℤ (o.security (hook_of op)) (pos 0))
      (λ e. record {
        refs = refl;
        done = acts op n ((eqb_ℤ_iff (o.security (hook_of op)) (pos 0)).0 e) h;
      })
      (λ e. record { refs = refl; done = asks (hook_of op) })

get_file_log : (o : Outside) (st : State) → (get_file o st).log ≡ st.log
get_file_log o st = ground arith

and_put_log : (b : Bool) (r : ℤ × State) → (and_put b r).1.log ≡ r.1.log
and_put_log b (e, v) = ground arith

and_put_refs :
    (o : Outside) (st : State) (r : ℤ × State)
    → r.1.refs ≡ (get_file o st).refs
    → (and_put o.shared r).1.refs ≡ st.refs
and_put_refs o st (e, v) h = ground arith

-- A body that is orderly after the file is taken is so with the file given back.
around :
    (o : Outside) (st : State) (r : ℤ × State)
    → IsOrderly o (get_file o st) r
    → IsOrderly o st (and_put o.shared r)
around o st r h = record {
  refs = and_put_refs o st r h.refs;
  done =
      subst (λ l. Done o l (and_put o.shared r).1.log) (get_file_log o st)
        (subst (Done o (get_file o st).log) (sym (and_put_log o.shared r)) h.done);
}

pub with_socket-IsOrderly :
    (o : Outside) (fd : ℤ) (body : State → ℤ × State) (st : State)
    → ((v : State) → IsOrderly o v (body v))
    → IsOrderly o st (with_socket o fd body st)
unfolding with_socket
with_socket-IsOrderly o fd body st h = at (o.fdget fd)
  where
    at : (f : Option Bool) → IsOrderly o st (on_file o f body st)
    at none = unmoved o st _
    at (some false) = around o st (neg enotsock, get_file o st) (unmoved o (get_file o st) _)
    at (some true) = around o st (body (get_file o st)) (h (get_file o st))

move_addr_to_kernel-Fits :
    (o : Outside) (n : ℤ)
    → (leb_ℤ (pos 0) n && leb_ℤ n (pos 128)) ≡ false
    → move_addr_to_kernel o n ≡ neg einval
unfolding move_addr_to_kernel
move_addr_to_kernel-Fits o (pos n) h = ground arith
move_addr_to_kernel-Fits o (negsuc n) h = ground arith

-- An address that is copied without an error has a length in range.
copied :
    (o : Outside) (n : ℤ)
    → ltb_ℤ (move_addr_to_kernel o n) (pos 0) ≡ false
    → (leb_ℤ (pos 0) n && leb_ℤ n (pos 128)) ≡ true
copied o n h = elim (Bool-cases (leb_ℤ (pos 0) n && leb_ℤ n (pos 128))) [
  | inl e ↦ e
  | inr e ↦
      absurd (contra (subst (λ m. ltb_ℤ m (pos 0) ≡ false) (move_addr_to_kernel-Fits o n e) h))
]
  where
    contra : true ≡ false → ⊥
    contra e = cc

pub copied_zero :
    (o : Outside) (n : ℤ)
    → eqb_ℤ (move_addr_to_kernel o n) (pos 0) ≡ true
    → (leb_ℤ (pos 0) n && leb_ℤ n (pos 128)) ≡ true
copied_zero o n h = copied o n (
    subst (λ m. ltb_ℤ m (pos 0) ≡ false) (sym ((eqb_ℤ_iff (move_addr_to_kernel o n) (pos 0)).0 h))
      refl)

pub bounded-Fits : (o : Outside) (n : ℤ) → Fits o listen (bounded o n)
bounded-Fits o (pos n) = ground arith
bounded-Fits o (negsuc n) = ground arith

then_to_user-IsOrderly :
    (o : Outside) (st : State) (r : ℤ × State)
    → IsOrderly o st r
    → IsOrderly o st (then_to_user o r)
then_to_user-IsOrderly o st (e, v) h =
    if-IsOrderly (ltb_ℤ e (pos 0)) (λ _. h) (λ _. record { refs = h.refs; done = h.done })

pub from_whom-IsOrderly :
    (o : Outside) (st : State) (wants : Bool) (r : ℤ × State)
    → IsOrderly o st r
    → IsOrderly o st (from_whom o wants r)
from_whom-IsOrderly o st wants (e, v) h =
    if-IsOrderly
      (not (ltb_ℤ e (pos 0)) && wants && ltb_ℤ (move_addr_to_user o o.msg_namelen) (pos 0))
      (λ _. record { refs = h.refs; done = h.done }) (λ _. h)

pub connect_on-IsOrderly :
    (o : Outside) (f : Option Bool) (n : ℤ) (st : State) → IsOrderly o st (connect_on o f n st)
connect_on-IsOrderly o none n st = unmoved o st _
connect_on-IsOrderly o (some is_socket) n st = around o st _ (
    if-IsOrderly (eqb_ℤ (move_addr_to_kernel o n) (pos 0))
      (λ e.
        if-IsOrderly is_socket
          (λ _. permitted-IsOrderly o connect n (get_file o st) (copied_zero o n e))
          (λ _. unmoved o (get_file o st) _))
      (λ _. unmoved o (get_file o st) _))

pub name_of-IsOrderly :
    (o : Outside) (op : Op) (st : State) → Fits o op (pos 0) → IsOrderly o st (name_of o op st)
name_of-IsOrderly o op st h =
    if-IsOrderly (eqb_ℤ (o.security op) (pos 0))
      (λ _. then_to_user-IsOrderly o st _ (permitted-IsOrderly o op (pos 0) st h))
      (λ _. permitted-IsOrderly o op (pos 0) st h)

pub send_to-IsOrderly :
    (o : Outside) (addr : Option ℤ) (st : State) → IsOrderly o st (send_to o addr st)
send_to-IsOrderly o none st = permitted-IsOrderly o sendmsg (pos 0) st refl
send_to-IsOrderly o (some n) st =
    if-IsOrderly (ltb_ℤ (move_addr_to_kernel o n) (pos 0)) (λ _. unmoved o st _)
      (λ e. permitted-IsOrderly o sendmsg n st (copied o n e))

asked-IsOrderly : (o : Outside) (op : Op) (e : ℤ) (st : State) → IsOrderly o st (e, ask op st)
asked-IsOrderly o op e st = record { refs = refl; done = asks op }

no_error : (e : ℤ) → not (eqb_ℤ e (pos 0)) ≡ false → e ≡ pos 0
no_error e h = (eqb_ℤ_iff e (pos 0)).0 (ground arith)

set_after-IsOrderly :
    (o : Outside) (st : State) (x : ℤ × ℤ × ℤ)
    → o.security setsockopt ≡ pos 0
    → IsOrderly o st (set_after o x (ask setsockopt st))
set_after-IsOrderly o st (bpf, level, n) allowed =
    let asks' = λ (e : ℤ). asked-IsOrderly o setsockopt e st in
    if-IsOrderly (ltb_ℤ bpf (pos 0)) (λ _. asks' _)
      (λ _.
        if-IsOrderly (ltb_ℤ (pos 0) bpf) (λ _. asks' _)
          (λ _.
            if-IsOrderly (eqb_ℤ level (pos 1) && not o.use_custom_sol_socket)
              (λ _. record { refs = refl; done = acts sock_setsockopt n allowed tt })
              (λ _.
                if-IsOrderly (not o.has_setsockopt) (λ _. asks' _)
                  (λ _. record { refs = refl; done = acts setsockopt n allowed tt }))))

pub set_on-IsOrderly :
    (o : Outside) (level n : ℤ) (st : State) → IsOrderly o st (set_on o level n st)
set_on-IsOrderly o level n st =
    if-IsOrderly (not (eqb_ℤ (o.security setsockopt) (pos 0)))
      (λ _. asked-IsOrderly o setsockopt _ st)
      (λ h. set_after-IsOrderly o st (after_program o level n) (no_error _ h))

after_bpf-IsOrderly :
    (o : Outside) (st : State) (r : ℤ × State) → IsOrderly o st r → IsOrderly o st (after_bpf o r)
after_bpf-IsOrderly o st (e, v) h = record { refs = h.refs; done = h.done }

pub get_on-IsOrderly : (o : Outside) (level : ℤ) (st : State) → IsOrderly o st (get_on o level st)
get_on-IsOrderly o level st =
    if-IsOrderly (not (eqb_ℤ (o.security getsockopt) (pos 0)))
      (λ _. asked-IsOrderly o getsockopt _ st)
      (λ h. after_bpf-IsOrderly o st _ (
        if-IsOrderly (eqb_ℤ level (pos 1))
          (λ _. record { refs = refl; done = acts sock_getsockopt (pos 0) (no_error _ h) tt })
          (λ _.
            if-IsOrderly (not o.has_getsockopt) (λ _. asked-IsOrderly o getsockopt _ st)
              (λ _. record { refs = refl; done = acts getsockopt (pos 0) (no_error _ h) tt }))))
