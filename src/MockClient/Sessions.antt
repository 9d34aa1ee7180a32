-- ===== src/MockClient/Sessions.antt =====
-- The client's invariant over sessions of calls.
use invofi.Prelude.{ℕ, refl, sym, subst, inl, inr, List, [], ◌∷◌, arith}
use invofi.Prelude.Map.{get, set}
use invofi.Prelude.Result.{Result-cases}
use invofi.MockClient.Store.{State}
use invofi.MockClient.Testing.{MockClientOptions, create_mock_client}
use invofi.MockClient.Requests.{Request, perform, perform_all}
use invofi.MockClient.Atomic.{perform-atomic}
use invofi.MockClient.Invariant.{IsValid, with_rules-IsValid}
use invofi.MockClient.Preserved.{returned-IsValid}

-- A call keeps the invariant, whether it returns or throws.
pub perform-IsValid : (r : Request) (s : State) → IsValid s → IsValid (perform r s).1
perform-IsValid r s v = elim (Result-cases (perform r s).0) [
  | inl (tt, e) ↦ returned-IsValid r s v e
  | inr (x, e) ↦
      subst IsValid (sym (perform-atomic r s x e)) (with_rules-IsValid s (perform r s).1 v)
]

perform_all-IsValid : (rs : List Request) (s : State) → IsValid s → IsValid (perform_all rs s)
unfolding perform_all
perform_all-IsValid [] s v = v
perform_all-IsValid (r ∷ rs) s v = perform_all-IsValid rs (perform r s).1 (perform-IsValid r s v)

create_mock_client-IsValid :
    (now : ℕ) (options : MockClientOptions) → IsValid (create_mock_client now options)
unfolding create_mock_client set get
create_mock_client-IsValid now options = record {
  invoices_keyed = ground arith;
  offers_on = ground arith;
  numbered = (1000, refl);
  in_step = refl;
}

-- After any session of calls that begins at a new client, every invoice and offer is stored under
-- its own id, every offer is on an invoice that the client knows, and the events are numbered
-- without gaps up to the client's ledger.
pub session-IsValid :
    (now : ℕ) (options : MockClientOptions) (rs : List Request)
    → IsValid (perform_all rs (create_mock_client now options))
session-IsValid now options rs = perform_all-IsValid rs _ (create_mock_client-IsValid now options)
