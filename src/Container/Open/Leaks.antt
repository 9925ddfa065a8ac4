-- ===== src/Container/Open/Leaks.antt =====
-- What `qwn_open` leaves open, mapped and allocated: nothing on failure, and on success only what
-- `qwn_close` gives back.
use qwanto.Base.{◌-◌, ap, none, ◌≡◌, refl, inl, inr, arith, Option-cases}
use qwanto.Container.Model.{
  Held, Loader, remove, close_held, unmap_held, close_file, release, free_buffers, close,
}
use qwanto.Container.Open.{
  Outcome, ok, fail, ◌>>=◌, System, open_file, stat_file, map_file, read_tail, read_header,
  read_inline, read_overflow, arrays, alloc_overflow, fill_overflow, open_model,
}

-- A failure has given everything back, and a success satisfies `P`.
abbrev pub Ensures : Held → (Loader → Type 0) → Outcome → Type 0
Ensures held P (ok s) = P s
Ensures held P (fail e s) = s.held ≡ held

>>=-Ensures :
    (held : Held) (P Q : Loader → Type 0) (o : Outcome) (f : Loader → Outcome)
    → Ensures held P o
    → ((s : Loader) → P s → Ensures held Q (f s))
    → Ensures held Q (o >>= f)
>>=-Ensures held P Q (ok s) f h k = k s h
>>=-Ensures held P Q (fail e s) f h k = h

-- Only the descriptor is held.
record Opened (held : Held) (s : Loader) : Type 0 where
  unmapped : s.model.base ≡ none
  empty : s.model.buffers ≡ 0
  gives_back : close_held s.model.fd s.held ≡ held

-- The descriptor and the mapping are held.
record Mapped (held : Held) (s : Loader) : Type 0 where
  empty : s.model.buffers ≡ 0
  gives_back : close_held s.model.fd (unmap_held s.model.base s.held) ≡ held

abbrev pub Closes : Held → Loader → Type 0
Closes held s = (close s).held ≡ held

open_file-Opened : (sys : System) (held : Held) → Ensures held (Opened held) (open_file sys held)
unfolding open_file
open_file-Opened sys held = elim (Option-cases sys.open_result) [
  | inl e ↦ rw (e, open_file) refl
  | inr (n, e) ↦ rw (e, open_file) (ground arith)
]

stat_file-Opened :
    (sys : System) (held : Held) (s : Loader)
    → Opened held s
    → Ensures held (Opened held) (stat_file sys s)
unfolding stat_file close_file
stat_file-Opened sys held s o = ground arith

map_file-Mapped :
    (sys : System) (held : Held) (s : Loader)
    → Opened held s
    → Ensures held (Mapped held) (map_file sys s)
unfolding map_file close_file
map_file-Mapped sys held s o = ground arith

read_tail-Mapped :
    (sys : System) (held : Held) (s : Loader)
    → Mapped held s
    → Ensures held (Mapped held) (read_tail sys s)
unfolding read_tail release
read_tail-Mapped sys held s o = ground arith

read_header-Mapped :
    (sys : System) (held : Held) (s : Loader)
    → Mapped held s
    → Ensures held (Mapped held) (read_header sys s)
unfolding read_header release
read_header-Mapped sys held s o = ground arith

read_inline-Mapped :
    (held : Held) (s : Loader) → Mapped held s → Ensures held (Mapped held) (read_inline s)
unfolding read_inline release
read_inline-Mapped held s o = ground arith

read_overflow-Closes :
    (sys : System) (held : Held) (s : Loader)
    → Mapped held s
    → Ensures held (Closes held) (read_overflow sys s)
unfolding read_overflow alloc_overflow fill_overflow arrays release free_buffers close
read_overflow-Closes sys held s o = ground arith

-- Whatever the system answers, each of the three allocations on its own, and whatever the file holds, `qwn_open`
-- leaks nothing: on every failure the
-- process holds what it held before, and after a success `qwn_close` restores that.
pub open_model-Closes :
    (sys : System) (held : Held) → Ensures held (Closes held) (open_model sys held)
unfolding open_model
open_model-Closes sys held = bind (Opened held) _ _ (open_file-Opened sys held) λ opened o.
    bind (Opened held) _ _ (stat_file-Opened sys held opened o) λ sized o'.
      bind (Mapped held) _ _ (map_file-Mapped sys held sized o') λ mapped m.
        bind (Mapped held) _ _ (read_tail-Mapped sys held mapped m) λ tailed m'.
          bind (Mapped held) _ _ (read_header-Mapped sys held tailed m') λ headed m''.
            bind (Mapped held) _ _ (read_inline-Mapped held headed m'')
              λ indexed i. read_overflow-Closes sys held indexed i
  where
    bind :
        (P : Loader → Type 0) (o : Outcome) (f : Loader → Outcome)
        → Ensures held P o
        → ((s : Loader) → P s → Ensures held (Closes held) (f s))
        → Ensures held (Closes held) (o >>= f)
    bind P o f h k = >>=-Ensures held P (Closes held) o f h k

-- `qwn_close` zeroes the model, so `fd` is 0 and not QWN_BAD_FD: closing again closes descriptor 0.
close-close :
    (s : Loader)
    → (close (close s)).held ≡ record (close s).held { fds = remove 0 (close s).held.fds }
unfolding close
close-close s =
    let kept : (close s).held.heap - 0 ≡ (close s).held.heap = omega arith in
    ap (λ n. record (close s).held { fds = remove 0 (close s).held.fds; heap = n }) kept
