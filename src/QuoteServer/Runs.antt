-- ===== src/QuoteServer/Runs.antt =====
-- A whole run of the quote server's application.
use sgx_erlang_extension.Prelude.{◌≡◌, List, ◌∷◌, ◌++◌}
use sgx_erlang_extension.Sgx.Bridge.{Bridge}
use sgx_erlang_extension.Sgx.Sdk.{Sdk}
use sgx_erlang_extension.QuoteServer.Dcap.{QvResult, Dcap}
use sgx_erlang_extension.QuoteServer.Calls.{Print, check_result}

-- What is printed ends with the line of a result and with what is given to come after it.
abbrev pub EndsWith : QvResult → List Print → List Print → Type 0
EndsWith r after printed =
    (before : List Print) × (printed ≡ before ++ ((check_result r).1 ∷ after))
