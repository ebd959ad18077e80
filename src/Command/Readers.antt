-- ===== src/Command/Readers.antt =====
-- What the readers of commands accept (devices_manager/src/man/data.rs).
use snapemu_workflow.Base.{
  ℕ, suc, zero, ◌+◌, ◌*◌, ◌%◌, ◌/◌, ◌≤◌, ◌<◌, ◌≡◌, ◌≢◌, ◌↔◌, refl, sym, ap, ◌∙◌, Bool, true, false,
  not, List, [], ◌∷◌, length, arith, ◌==◌, if◌then◌else◌, Outcome, ok, err, panic, stuck, ◌>>=◌,
  ◌>>◌, ensure, index, slice_from_le, Bool-cases, inl, inr,
}
use snapemu_workflow.Command.{
  CommandError, device_info_new, update_device_info_new, query_io_new, update_io_new, io_timer_new,
  format_command, format, state, Io, device_info, update_device_info, query_timer, update_timer,
  io_length, query_id_error,
}

-- A way to end that is `Ok` or `Err`.
abbrev pub Returns : {E A : Type 0} → Outcome E A → Type 0
Returns (ok a) = Unit
Returns (err e) = Unit
Returns panic = ⊥
Returns stuck = ⊥

Returns-if :
    {E A : Type 0} (b : Bool) (x y : Outcome E A)
    → Returns x
    → Returns y
    → Returns (if b then x else y)
Returns-if true x y h k = h
Returns-if false x y h k = k

Returns-bind :
    {E A B : Type 0} (x : Outcome E A) (f : A → Outcome E B)
    → Returns x
    → ((a : A) → Returns (f a))
    → Returns (x >>= f)
Returns-bind (ok a) f h k = k a
Returns-bind (err e) f h k = tt
Returns-bind panic f h k = h
Returns-bind stuck f h k = h

Returns-ensure :
    {E A : Type 0} (b : Bool) (e : E) (k : Outcome E A) → Returns k → Returns (ensure b e >> k)
Returns-ensure true e k h = h
Returns-ensure false e k h = tt

-- `UpdateIO::new` on three bytes or more.
abbrev update_io_parts : ℕ → ℕ → ℕ → List ℕ → Outcome CommandError (Bool × List ℕ)
update_io_parts a b c rest =
    ensure (not ((2 + length rest) % 2 == 1)) io_length
    >> (ensure (not (b == 0xff)) io_length
        >> ok (if length rest == 0 then (false, b ∷ c ∷ rest) else (true, b ∷ c ∷ rest)))

update_io_new-parts :
    (a b c : ℕ) (rest : List ℕ) → update_io_new (a ∷ b ∷ c ∷ rest) ≡ update_io_parts a b c rest
unfolding update_io_new index
update_io_new-parts a b c rest =
    rw (slice_from_le {E = CommandError} (a ∷ b ∷ c ∷ rest) 1 (omega arith)) (ground arith)

update_io_new-Returns : (bytes : List ℕ) → Returns (update_io_new bytes)
unfolding update_io_new
update_io_new-Returns [] = tt
update_io_new-Returns (a ∷ []) = tt
update_io_new-Returns (a ∷ (b ∷ [])) = tt
update_io_new-Returns (a ∷ (b ∷ (c ∷ rest))) = rw (update_io_new-parts a b c rest) (
    Returns-ensure (not ((2 + length rest) % 2 == 1)) io_length _
      (Returns-ensure (not (b == 0xff)) io_length _ tt))

tested :
    {A : Type 0} (b : Bool) (e : CommandError) (bytes : List ℕ) (f : List ℕ → A)
    → Returns ((ensure b e >> ok bytes) >>= λ d. ok (f d))
tested true e bytes f = tt
tested false e bytes f = tt

query_io_new-Returns : (bytes : List ℕ) → Returns (query_io_new bytes)
unfolding query_io_new
query_io_new-Returns [] = tt
query_io_new-Returns (b ∷ bytes) =
    Returns-ensure (not (b == 0xff)) query_id_error (ok (b ∷ bytes)) tt

format_command-Returns : (command : ℕ) (rest : List ℕ) → Returns (format_command command rest)
unfolding format_command device_info_new update_device_info_new io_timer_new
format_command-Returns command rest =
    Returns-if (command == 0) _ _ (tested (length rest == 12) _ rest device_info) (
      Returns-if (command == 1) _ _ (tested (length rest == 8) _ rest update_device_info) (
        Returns-if (command == 2) _ _
          (Returns-bind (query_io_new rest) _ (query_io_new-Returns rest) (λ d. tt))
          (Returns-if (command == 3) _ _
            (Returns-bind (update_io_new rest) _ (update_io_new-Returns rest) (λ d. tt))
            (Returns-if (command == 4) _ _ (tested (length rest == 7) _ rest query_timer)
              (Returns-if (command == 5) _ _ (tested (length rest == 7) _ rest update_timer) tt)))))

-- The pins in an even number of bytes.
state-even :
    (n : ℕ) (d : List ℕ) → length d ≡ 2 * n → (l : List Io) × (state d ≡ ok l) × (length l ≡ n)
unfolding state
state-even zero [] e = ([], refl, refl)
state-even zero (x ∷ d) e = absurd (omega arith)
state-even (suc n) [] e = absurd (omega arith)
state-even (suc n) (x ∷ []) e = absurd (omega arith)
state-even (suc n) (x ∷ (y ∷ d)) e =
    let (l, run, size) = state-even n d (omega arith) in
    (record { id = x; value = y == 1 } ∷ l, rw run refl, ap suc size)

parts_read :
    (a b c : ℕ) (rest : List ℕ) (many : Bool) (d : List ℕ)
    → update_io_parts a b c rest ≡ ok (many, d)
    → (suc (length d) ≡ length (a ∷ b ∷ c ∷ rest))
      × (3 ≤ length (a ∷ b ∷ c ∷ rest))
      × (length d % 2 ≡ 0)
      × ((many ≡ true) ↔ (3 < length (a ∷ b ∷ c ∷ rest)))
parts_read a b c rest many d e = elim (Bool-cases ((2 + length rest) % 2 == 1)) [
  | inl odd ↦ absurd (refused e (rw odd refl))
  | inr even ↦ elim (Bool-cases (b == 0xff)) [
    | inl ff ↦ absurd (refused e (rw (even, ff) refl))
    | inr fits ↦ elim (Bool-cases (length rest == 0)) [
      | inl one ↦
          let q : ◌≡◌ {A = Outcome CommandError (Bool × List ℕ)} (ok (false, b ∷ c ∷ rest))
              (ok (many, d)) =
            rw (even, fits, one) at e in
          let m : false ≡ many = cc in
          let l : b ∷ c ∷ rest ≡ d = cc in
          rw (← m, ← l)
            (
              omega arith,
              omega arith,
              ground (arith, even),
              (λ h. absurd cc, λ h. ground (arith, one)),
            )
      | inr more ↦
          let q : ◌≡◌ {A = Outcome CommandError (Bool × List ℕ)} (ok (true, b ∷ c ∷ rest))
              (ok (many, d)) =
            rw (even, fits, more) at e in
          let m : true ≡ many = cc in
          let l : b ∷ c ∷ rest ≡ d = cc in
          rw (← m, ← l)
            (omega arith, omega arith, ground (arith, even), (λ h. ground (arith, more), λ h. refl))
    ]
  ]
]
  where
    refused :
        {o : Outcome CommandError (Bool × List ℕ)} {x : Bool × List ℕ}
        → o ≡ ok x
        → o ≢ err io_length
    refused p q = cc

-- What is behind an accepted command for pins.
update_io_new-ok :
    (bytes : List ℕ) (many : Bool) (d : List ℕ)
    → update_io_new bytes ≡ ok (many, d)
    → (suc (length d) ≡ length bytes)
      × (3 ≤ length bytes)
      × (length d % 2 ≡ 0)
      × ((many ≡ true) ↔ (3 < length bytes))
unfolding update_io_new
update_io_new-ok [] many d e = absurd cc
update_io_new-ok (a ∷ []) many d e = absurd cc
update_io_new-ok (a ∷ (b ∷ [])) many d e = absurd cc
update_io_new-ok (a ∷ (b ∷ (c ∷ rest))) many d e =
    let parts : update_io_parts a b c rest ≡ ok (many, d) =
      sym (update_io_new-parts a b c rest) ∙ e in
    parts_read a b c rest many d parts

-- No bytes make the reader of commands panic. Where `UpdateIO::new` accepts bytes, every pair of those
-- behind the first gives a pin, at least one, and it says whether there are more than one.
pub format-Returns :
    (payload : List ℕ)
    → Returns (format payload)
      × ((many : Bool) (d : List ℕ)
          → update_io_new payload ≡ ok (many, d)
          → (l : List Io) × (state d ≡ ok l)
            × (length payload ≡ 1 + 2 * length l)
            × (1 ≤ length l)
            × ((many ≡ true) ↔ (2 ≤ length l)))
unfolding format
format-Returns payload = (whole payload, λ many d e. pins payload many d e)
  where
    whole : (payload : List ℕ) → Returns (format payload)
    whole [] = tt
    whole (command ∷ rest) =
        rw (slice_from_le {E = CommandError} (command ∷ rest) 1 (omega arith))
          (format_command-Returns command rest)

    pins :
        (payload : List ℕ) (many : Bool) (d : List ℕ)
        → update_io_new payload ≡ ok (many, d)
        → (l : List Io) × (state d ≡ ok l)
          × (length payload ≡ 1 + 2 * length l)
          × (1 ≤ length l)
          × ((many ≡ true) ↔ (2 ≤ length l))
    pins payload many d e =
        let (size, three, even, (to, from)) = update_io_new-ok payload many d e in
        let (l, run, n) = state-even (length d / 2) d (omega arith) in
        (
          l,
          run,
          omega arith,
          omega arith,
          (λ h. let t = to h in omega arith, λ h. from (omega arith)),
        )
