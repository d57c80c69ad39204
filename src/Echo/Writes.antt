-- ===== src/Echo/Writes.antt =====
-- What one write of an intercept of src/remap_echo/remap_echo.cc puts into the buffer.
use ats_plugin_experiment.Base.{
  ℕ, ◌+◌, ◌-◌, ◌≤◌, true, false, ◌==◌, Option, none, some, ◌++◌, Bytes, length, length-append, take,
  length-take_le, length-take_short, length-take_eq, take_whole, ◌≡◌, ◌⊎◌, inl, inr, refl, sym, ap,
  ◌∙◌, arith, Bool-cases, Option-cases,
}
use ats_plugin_experiment.Echo.{RemapEchoRequest}
use ats_plugin_experiment.Echo.Intercept.{
  Event, write_ready, read_complete, timeout, inactivity_timeout, other_event, write_content,
  amount,
}

module _ {P : Type 0} (header content : Bytes) where
  -- The counts of an answer under way: what is written and what is left make up the header and the
  -- content, and the write operation is told what is written.
  pub record IsCounted (trq : RemapEchoRequest P) : Type 0 where
    pub content_is : trq.content ≡ content
    pub left : trq.nbytes ≤ length content
    pub adds_up : length trq.written + trq.nbytes ≡ length header + length content
    pub told : trq.write_nbytes ≡ some (length trq.written)

  -- Either nothing of the content is written, or all.
  pub record IsWhole (trq : RemapEchoRequest P) : Type 0 where
    pub counted : IsCounted trq
    pub written_is :
        ((trq.nbytes ≡ length content) × (trq.written ≡ header))
        ⊎ ((trq.nbytes ≡ 0) × (trq.written ≡ header ++ content))

pub write_idle :
    {P : Type 0} (room : ℕ) (trq : RemapEchoRequest P)
    → (trq.nbytes == 0) ≡ true
    → (write_content room trq).request ≡ some trq
unfolding write_content
write_idle room trq z = ground (arith, z)

-- The request behind a write.
abbrev pub told_nbytes : Option ℕ → ℕ
told_nbytes none = 0
told_nbytes (some n) = n

abbrev pub after_write : {P : Type 0} → ℕ → RemapEchoRequest P → RemapEchoRequest P
after_write room trq = record trq {
  nbytes = trq.nbytes - amount room trq;
  written = trq.written ++ take (amount room trq) trq.content;
  write_nbytes = some (told_nbytes trq.write_nbytes + amount room trq);
}

pub write_some :
    {P : Type 0} (room : ℕ) (trq : RemapEchoRequest P)
    → (trq.nbytes == 0) ≡ false
    → (write_content room trq).request ≡ some (after_write room trq)
unfolding write_content
write_some room trq z =
    rw z (elim (Option-cases trq.write_nbytes) [ inl e ↦ rw e refl | inr (n, e) ↦ rw e refl ])

amount-le : {P : Type 0} (room : ℕ) (trq : RemapEchoRequest P) → amount room trq ≤ trq.nbytes
amount-le room trq = omega (
  arith,
  length-take_short room (take trq.nbytes trq.content),
  length-take_le trq.nbytes trq.content,
)

pub amount_whole :
    {P : Type 0} (room : ℕ) (trq : RemapEchoRequest P)
    → trq.nbytes ≡ length trq.content
    → trq.nbytes ≤ room
    → amount room trq ≡ trq.nbytes
amount_whole room trq e h =
    let all : take trq.nbytes trq.content ≡ trq.content =
      take_whole trq.nbytes trq.content (omega (arith, e)) in
    ap (λ c. length (take room c)) all
    ∙ ap length (take_whole room trq.content (omega (arith, e, h)))
    ∙ sym e

-- The events that neither start an answer nor end it; the write buffer has room for `least` bytes.
abbrev pub IsQuiet : ℕ → Event → Type 0
IsQuiet least (write_ready room) = least ≤ room
IsQuiet least read_complete = Unit
IsQuiet least timeout = Unit
IsQuiet least inactivity_timeout = Unit
IsQuiet least other_event = Unit
IsQuiet least _ = ⊥

module _ {P : Type 0} where
  -- What a list of events leaves, where it leaves a request.
  pub record Leaves (Q : RemapEchoRequest P → Type 0) (o : Option (RemapEchoRequest P))
      : Type 0 where
    pub request : RemapEchoRequest P
    pub found : o ≡ some request
    pub holds : Q request

module _ {P : Type 0} (header content : Bytes) where
  after_write-IsCounted :
      (room : ℕ) (trq : RemapEchoRequest P)
      → IsCounted header content trq
      → IsCounted header content (after_write room trq)
  after_write-IsCounted room trq h =
      let a = amount room trq in
      let fits : a ≤ trq.nbytes = amount-le room trq in
      let size : length trq.content ≡ length content = ap length h.content_is in
      let taken : length (take a trq.content) ≡ a =
        length-take_eq a trq.content (omega (arith, fits, h.left, size)) in
      let grown : length (trq.written ++ take a trq.content) ≡ length trq.written + a =
        length-append trq.written (take a trq.content) ∙ ap (λ n. length trq.written + n) taken in
      record {
        content_is = h.content_is;
        left = omega (arith, h.left);
        adds_up = omega (arith, h.adds_up, grown, fits);
        told = ap (λ o. some (told_nbytes o + a)) h.told ∙ ap some (sym grown);
      }

  pub after_write-IsWhole :
      (room : ℕ) (trq : RemapEchoRequest P)
      → length content ≤ room
      → (trq.nbytes == 0) ≡ false
      → IsWhole header content trq
      → IsWhole header content (after_write room trq)
  after_write-IsWhole room trq fits some_left h =
      let size : length trq.content ≡ length content = ap length h.counted.content_is in
      record {
        counted = after_write-IsCounted room trq h.counted;
        written_is = elim h.written_is [
          | inr (z, w) ↦ absurd (ground (arith, z, some_left))
          | inl (n, w) ↦
              let a : amount room trq ≡ trq.nbytes =
                amount_whole room trq (n ∙ sym size) (omega (arith, n, fits)) in
              let whole : take (amount room trq) trq.content ≡ content =
                take_whole (amount room trq) trq.content (omega (arith, a, n, size))
                ∙ h.counted.content_is in
              inr (omega (arith, a), cc (w, whole))
        ];
      }

  pub write_content-IsCounted :
      (room : ℕ) (trq : RemapEchoRequest P)
      → IsCounted header content trq
      → Leaves (IsCounted header content) (write_content room trq).request
  write_content-IsCounted room trq h = elim (Bool-cases (trq.nbytes == 0)) [
    | inl z ↦ record { request = trq; found = write_idle room trq z; holds = h }
    | inr z ↦ record {
      request = after_write room trq;
      found = write_some room trq z;
      holds = after_write-IsCounted room trq h;
    }
  ]

  pub write_content-IsWhole :
      (room : ℕ) (trq : RemapEchoRequest P)
      → length content ≤ room
      → IsWhole header content trq
      → Leaves (IsWhole header content) (write_content room trq).request
  write_content-IsWhole room trq fits h = elim (Bool-cases (trq.nbytes == 0)) [
    | inl z ↦ record { request = trq; found = write_idle room trq z; holds = h }
    | inr z ↦ record {
      request = after_write room trq;
      found = write_some room trq z;
      holds = after_write-IsWhole room trq fits z h;
    }
  ]
