-- ===== src/CNode/Replies.antt =====
-- What the running C node answers, against a description of a counting service.
use sgx_erlang_extension.Prelude.{
  ℕ, ◌+◌, ◌%◌, ◌^◌, ◌≡◌, refl, sym, Option, none, some, List, [], ◌∷◌, ◌++◌, arith, Option-cases,
  inl, inr, append_assoc, append-nil, ◌≢◌,
}
use sgx_erlang_extension.Process.{Outcome, Run, returned, waiting, crashed}
use sgx_erlang_extension.Sgx.Bridge.{Bridge}
use sgx_erlang_extension.Counter.{Enclave, plain_increment, plain_return_a}
use sgx_erlang_extension.Counter.Laws.{IsWorking, my_increment_working, my_return_a_working}
use sgx_erlang_extension.CNode.{
  ErlInterface, Got, tick, error, message, reg_send, other_type, Server, fresh, dispatch,
  plain_dispatch, handle, serve,
}
use sgx_erlang_extension.CNode.Atoms.{
  Command, increment, return_a, unknown, command_of, increment-not-return,
}

-- The counter, and the local variable `res`, after a command. `lost` says what an unknown command
-- makes of `res`.
abbrev pub count_after : Command → ℕ → ℕ
count_after increment n = (n + 1) % 2 ^ 32
count_after return_a n = n
count_after unknown n = n

abbrev pub res_after : (Option ℕ → Option ℕ) → Command → ℕ → Option ℕ → Option ℕ
res_after lost increment n r = some 0
res_after lost return_a n r = some n
res_after lost unknown n r = lost r

abbrev pub keep : Option ℕ → Option ℕ
keep r = r

abbrev pub one : Option ℕ → Option ℕ
one r = some 1

-- A dispatch that implements a command by its effect on the counter and on `res`.
abbrev pub Implements :
    {T : Type 0} → (Option ℕ → Option ℕ) → (List ℕ → Run (Server T) (Unit {0})) → Type 0
Implements {T = T} lost dispatch =
    (name : List ℕ) (s : Server T)
    → dispatch name s ≡ (
      returned tt,
      record s {
        enclave = record { a = count_after (command_of name) s.enclave.a };
        res = res_after lost (command_of name) s.enclave.a s.res;
      },
    )

pub plain_dispatch-Implements : {T : Type 0} → Implements one (plain_dispatch {T = T})
unfolding plain_dispatch command_of plain_increment plain_return_a
plain_dispatch-Implements name s = ground arith

pub dispatch-Implements :
    {T : Type 0} (bridge : Bridge Enclave)
    → IsWorking bridge
    → Implements keep (dispatch {T = T} bridge)
unfolding dispatch command_of plain_increment plain_return_a
dispatch-Implements bridge w name s = ground (
  arith,
  increment-not-return name,
  my_increment_working bridge w s.enclave,
  my_return_a_working bridge w s.enclave,
)

module _ (erl : ErlInterface) where
  open erl use {Eterm, element, atom_ptr}

  -- The command in a message `{_, To, {Atom, …}}` and the process to answer, or nothing if the
  -- message has another form. `To` may be missing, as NULL.
  unfoldable pub request : Eterm → Option (Option Eterm × Command)
  request msg = elim (element 3 msg) [
    | none ↦ none
    | some tuple ↦ elim (element 1 tuple) [
      | none ↦ none
      | some fn ↦ elim (atom_ptr fn) [
        | none ↦ none
        | some name ↦ some (element 2 msg, command_of name)
      ]
    ]
  ]

  -- The service: how the loop ends, and the replies, from a counter and a value of `res` on.
  unfoldable pub session :
      (Option ℕ → Option ℕ)
      → List (Got Eterm)
      → ℕ
      → Option ℕ
      → Outcome (Unit {0}) × List (Option Eterm × Option ℕ)
  session lost [] n r = (waiting, [])
  session lost (tick ∷ rest) n r = session lost rest n r
  session lost (error ∷ rest) n r = (returned tt, [])
  session lost (message (other_type k) msg from ∷ rest) n r = session lost rest n r
  session lost (message reg_send msg from ∷ rest) n r = elim (request msg) [
    | none ↦ (crashed, [])
    | some (to, c) ↦
        let r' = res_after lost c n r in
        let (o, replies) = session lost rest (count_after c n) r' in (o, (to, r') ∷ replies)
  ]

  module _ (lost : Option ℕ → Option ℕ) (dispatch : List ℕ → Run (Server Eterm) (Unit {0}))
      (imp : Implements lost dispatch) where
    -- What handling a message from `to` with a command has done.
    abbrev Handled :
        Option Eterm → Command → Server Eterm → Outcome (Unit {0}) × Server Eterm → Type 0
    Handled to c s (o, t) =
        (o ≡ returned tt)
        × (t.enclave.a ≡ count_after c s.enclave.a)
        × (t.res ≡ res_after lost c s.enclave.a s.res)
        × (t.sent ≡ s.sent ++ ((to, res_after lost c s.enclave.a s.res) ∷ []))

    handle_named :
        (msg from tuple fn : Eterm) (name : List ℕ) (s : Server Eterm)
        → element 3 msg ≡ some tuple
        → element 1 tuple ≡ some fn
        → atom_ptr fn ≡ some name
        → Handled (element 2 msg) (command_of name) s (handle erl dispatch msg from s)
    unfolding handle
    handle_named msg from tuple fn name s h k l = ground (arith, imp name s)

    handle-request :
        (msg from : Eterm) (to : Option Eterm) (c : Command) (s : Server Eterm)
        → request msg ≡ some (to, c)
        → Handled to c s (handle erl dispatch msg from s)
    unfolding request
    handle-request msg from to c s h = elim (Option-cases (element 3 msg)) [
      | inl a ↦ ground arith
      | inr (tuple, a) ↦ elim (Option-cases (element 1 tuple)) [
        | inl b ↦ ground arith
        | inr (fn, b) ↦ elim (Option-cases (atom_ptr fn)) [
          | inl d ↦ ground arith
          | inr (name, d) ↦ ground (arith, handle_named msg from tuple fn name s a b d)
        ]
      ]
    ]

    handle_malformed :
        (msg from : Eterm) (s : Server Eterm)
        → request msg ≡ none
        → handle erl dispatch msg from s ≡ (crashed, s)
    unfolding handle request
    handle_malformed msg from s h = ground arith

    serve-session :
        (input : List (Got Eterm)) (s : Server Eterm)
        → let (o, replies) = session lost input s.enclave.a s.res in
          ((serve erl dispatch input s).0 ≡ o)
          × ((serve erl dispatch input s).1.sent ≡ s.sent ++ replies)
    unfolding serve session
    serve-session [] s = (refl, sym (append-nil _))
    serve-session (tick ∷ rest) s = serve-session rest s
    serve-session (error ∷ rest) s = (refl, sym (append-nil _))
    serve-session (message (other_type k) msg from ∷ rest) s = serve-session rest s
    serve-session (message reg_send msg from ∷ rest) s = elim (Option-cases (request msg)) [
      | inl e ↦ ground (arith, handle_malformed msg from s e, append-nil s.sent)
      | inr ((to, c), e) ↦ ground (
        arith,
        handle-request msg from to c s e,
        serve-session rest (handle erl dispatch msg from s).1,
        append_assoc s.sent ((to, res_after lost c s.enclave.a s.res) ∷ [])
            (session lost rest (count_after c s.enclave.a) (res_after lost c s.enclave.a s.res)).1,
      )
    ]

  -- Over a bridge whose calls succeed, a fresh node with an enclave ends its loop and replies as
  -- the counting service does that starts at 0 and leaves `res` alone on an unknown command,
  -- whatever the peer sends: each `increment` is answered 0, each `return` with the number of
  -- increments before it modulo 2 ^ 32, and an unknown command with the previous answer, which
  -- is indeterminate if there was none.
  pub serve-replies :
      (bridge : Bridge Enclave)
      → IsWorking bridge
      → (input : List (Got Eterm))
      → ((serve erl (dispatch bridge) input fresh).0 ≡ (session keep input 0 none).0)
        × ((serve erl (dispatch bridge) input fresh).1.sent ≡ (session keep input 0 none).1)
  serve-replies bridge w input =
      serve-session keep (dispatch bridge) (dispatch-Implements bridge w) input fresh

  -- The version without an enclave ends its loop and replies as the counting service does that
  -- starts at 0 and answers 1 to an unknown command, whatever the peer sends.
  pub plain_serve-replies :
      (input : List (Got Eterm))
      → ((serve erl plain_dispatch input fresh).0 ≡ (session one input 0 none).0)
        × ((serve erl plain_dispatch input fresh).1.sent ≡ (session one input 0 none).1)
  plain_serve-replies input = serve-session one plain_dispatch plain_dispatch-Implements input fresh

  -- Every request of the input that has the form of one is a known command.
  abbrev pub IsKnown : Option (Option Eterm × Command) → Type 0
  IsKnown none = Unit
  IsKnown (some (to, c)) = c ≢ unknown

  abbrev pub AllKnown : List (Got Eterm) → Type 0
  AllKnown [] = Unit
  AllKnown (tick ∷ rest) = AllKnown rest
  AllKnown (error ∷ rest) = AllKnown rest
  AllKnown (message (other_type k) msg from ∷ rest) = AllKnown rest
  AllKnown (message reg_send msg from ∷ rest) = IsKnown (request msg) × AllKnown rest

  session_known :
      (input : List (Got Eterm)) (n : ℕ) (r : Option ℕ)
      → AllKnown input
      → session keep input n r ≡ session one input n r
  unfolding session
  session_known [] n r h = refl
  session_known (tick ∷ rest) n r h = session_known rest n r h
  session_known (error ∷ rest) n r h = refl
  session_known (message (other_type k) msg from ∷ rest) n r h = session_known rest n r h
  session_known (message reg_send msg from ∷ rest) n r h = elim (Option-cases (request msg)) [
    | inl e ↦ ground arith
    | inr ((to, c), e) ↦
        ground (arith, session_known rest (count_after c n) (res_after keep c n r) h.1)
  ]

  -- Over a bridge whose calls succeed, and on inputs whose requests are all known commands, the
  -- node with an enclave and the one without end alike and send the same replies to the same
  -- processes.
  pub serve-plain :
      (bridge : Bridge Enclave)
      → IsWorking bridge
      → (input : List (Got Eterm)) → AllKnown input
      → ((serve erl (dispatch bridge) input fresh).0 ≡ (serve erl plain_dispatch input fresh).0)
        × ((serve erl (dispatch bridge) input fresh).1.sent
            ≡ (serve erl plain_dispatch input fresh).1.sent)
  serve-plain bridge w input h =
      ground (
        arith,
        serve-replies bridge w input,
        plain_serve-replies input,
        session_known input 0 none h,
      )
