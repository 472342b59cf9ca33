-- ===== src/Serial/Port.antt =====
-- internal/serial/port.go: the interface `Port` over an unknown state, calls of it, and `Open`.
use rover_mems_ecu.Base.{ℕ, String, Bool, List, [], ◌∷◌, Option}

-- An error of the port, and whether its `Timeout()` holds.
pub record PortError : Type 0 where
  pub message : String
  pub is_timeout : Bool

-- What a `Read` into so many bytes gives, what a `Write` takes of its bytes, and so on. Durations are in
-- microseconds.
pub record Port (S : Type 0) : Type 0 where
  pub read : ℕ → S → S × List ℕ × Option PortError
  pub write : List ℕ → S → S × ℕ × Option PortError
  pub set_read_timeout : ℕ → S → S × Option PortError
  pub break_for : ℕ → S → S × Option PortError
  pub close : S → S × List PortError

pub data Parity : Type 0 where
  no_parity even_parity : Parity

pub data Call : Type 0 where
  read_into : ℕ → Call
  write_bytes : List ℕ → Call
  set_timeout : ℕ → Call
  break_line : ℕ → Call
  close_port : Call

pub data Answer : Type 0 where
  read_gave : List ℕ → Option PortError → Answer
  write_took : ℕ → Option PortError → Answer
  done : Option PortError → Answer
  closed : List PortError → Answer

module _ {S : Type 0} where
  unfoldable pub call : Port S → Call → S → S × Answer
  call p (read_into n) s = let (s', bytes, e) = p.read n s in (s', read_gave bytes e)
  call p (write_bytes bytes) s = let (s', n, e) = p.write bytes s in (s', write_took n e)
  call p (set_timeout t) s = let (s', e) = p.set_read_timeout t s in (s', done e)
  call p (break_line d) s = let (s', e) = p.break_for d s in (s', done e)
  call p close_port s = let (s', es) = p.close s in (s', closed es)

  unfoldable pub calls : Port S → List Call → S → S × List Answer
  calls p [] s = (s, [])
  calls p (c ∷ cs) s =
      let (s', answer) = call p c s in let (s'', answers) = calls p cs s' in (s'', answer ∷ answers)
