-- ===== src/Executor/Observe/Ports.antt =====
-- internal/executor/real.go: what the observer concludes from the output of ss.
use lab_env.Common.{◌≡◌, true, [], ◌∷◌, String, sym, subst}
use lab_env.Common.Bytes.{Bytes, codes, has_text}
use lab_env.Common.Occurs.{Occurs, has_text-append, has_text-Occurs}
use lab_env.Common.Errors.{ok}
use lab_env.Conformance.Observer.{PortStatus}
use lab_env.Executor.Observe.{Probe, check_port, run_raw}

-- Where ss can be run, a port counts as listening exactly when its address occurs anywhere in the
-- output of ss, also as the beginning of a longer port or as the address of a peer.
pub check_port-Occurs :
    {S : Type 0} (p : Probe S) (addr : String) (s : S) (out : Bytes)
    → run_raw p "ss" ("-ltnp" ∷ []) s ≡ ok out
    → (st : PortStatus) × (check_port p addr s ≡ ok st)
      × (st.listening ≡ true → Occurs (codes addr) out)
      × (Occurs (codes addr) out → st.listening ≡ true)
unfolding check_port
check_port-Occurs p addr s out ran = (
  record { listening = has_text out (codes addr); addr = addr },
  rw ran,
  has_text-Occurs out (codes addr),
  λ (before, after, e).
      subst (λ o. has_text o (codes addr) ≡ true) (sym e)
        (has_text-append before (codes addr) after),
)
