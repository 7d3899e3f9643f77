-- ===== src/Lib.antt =====
-- A verification library for the first-party C code of sgx-erlang-extension: the prototypes that
-- let Erlang call C functions, with and without an Intel SGX enclave around them.
--
-- The repository has three families of prototypes. A C node (erlang-c-node, and its copy in
-- without-sgx/erlang-c-node) is a process of its own that answers Erlang messages. A NIF library
-- (erlang-nif, and without-sgx/erlang-nif) is loaded into the virtual machine. The library of
-- erlang-nif_SSL adds RSA operations by OpenSSL, with an enclave (App and Enclave) and without
-- (App_no-sgx). All of them keep a counter `a`; where there is an enclave, the untrusted
-- application reaches it by generated proxies, and every wrapper aborts the process unless the
-- proxy returns SGX_SUCCESS. Beside them, attestation_abandoned has two samples of remote
-- attestation: one by EPID, with an application, its enclave and a service provider, and a server
-- that verifies ECDSA quotes.
--
-- Which file models which part:
-- - Process: how a C function ends, and the monad of functions that change a state.
-- - Sgx/Codes: the status codes that the source names. Sgx/Errors: `sgx_errlist` and
--   `print_error_message`, the same text in erlang-c-node/App/App.c, erlang-nif/App/App.c and
--   erlang-nif_SSL/App/App.c. Sgx/Bridge: the calls into an enclave. Sgx/Sdk: creating and
--   destroying enclaves. Sgx/Sha256: the SDK's SHA-256. Sgx/Toy: a small runtime, for tests.
-- - Counter: `ecall_increment` and `ecall_return_a` of
--   erlang-c-node/Enclave/EnclavedErlangCFunc/Test.cpp, `my_increment` and `my_return_a` of
--   erlang-c-node/App/EnclavedErlangCFunc/Test.c, and the same without an enclave. The copies in
--   erlang-nif are the same code. Counter/Laws: their behaviour over many calls.
-- - CNode: the handling of a message and the receive loop of `main` in erlang-c-node/App/App.c
--   and without-sgx/erlang-c-node/App/App.c. CNode/Start: `initialize_enclave`, `my_listen`,
--   `main`. CNode/Atoms: which atoms are commands. CNode/Replies: the service that the loop
--   implements. CNode/Startup: the start and its failures. CNode/Runs: whole runs of the two
--   versions.
-- - Nif: `load`, `unload`, `upgrade` and the NIFs of erlang-nif/App/App.c and
--   without-sgx/erlang-nif/App/App.c. Nif/Lifecycle: the enclaves that they leave. Nif/Calls:
--   sequences of calls.
-- - Token: `initialize_enclave` of erlang-nif_SSL/App/App.c, and `load`, `unload` and `upgrade`
--   around it. Token/Buffer: strings in arrays. Token/Path: the path of the token file.
--   Token/Launch: the file and the creation of the enclave. Token/Files: what is read and closed.
--   Token/Saves: what is written.
-- - Rsa: erlang-nif_SSL/Enclave/Enclave.cpp, whose trusted functions
--   erlang-nif_SSL/App_no-sgx/EnclavedErlangCFunc/Enclave.cpp repeats. Rsa/Crypto: what it uses
--   of OpenSSL. Rsa/Keys: key generation. Rsa/Ciphers: signing, encrypting, the public key.
--   Rsa/Small: a small library in OpenSSL's place, for tests.
-- - RsaNif: the wrappers of erlang-nif_SSL/App/EnclavedErlangCFunc/Test.c and of App_no-sgx, and
--   the NIFs of the two App.c. RsaNif/Table: the table of the NIFs. RsaNif/Laws, RsaNif/Keys and
--   RsaNif/Plain: what the NIFs return.
-- - IsvEnclave: the key derivation and the two checks of the attestation sample's enclave,
--   attestation_abandoned/erlang-c-node-remote/isv_enclave/isv_enclave.cpp. IsvEnclave/Results:
--   what is accepted. IsvEnclave/Derivation: the derived keys. IsvEnclave/Contexts: what it opens
--   and closes.
-- - ServiceProvider: the other end of the attestation sample,
--   attestation_abandoned/erlang-c-node-remote/service_provider. Ecp, Ias and Network are
--   ecp.cpp, ias_ra.cpp and network_ra.cpp; State, KeyIds, Msg0, Msg1 and Msg3 are
--   service_provider.cpp with its headers, one module for each handler; Steps is the `do { }
--   while(0)` that a failing step leaves. Libcrypto: what is used of sample_libcrypto. Server:
--   message 0 and the simulated server. KeyExchange and Exchanged: message 1 and the keys.
--   Acceptance and Accepted: message 3. Secret: from there to the enclave. Keeps, Invariant,
--   Msg3Safety, Requests and Reachable: sequences of requests. Sizes: the arrays through them.
--   Success: lemmas on steps. Toy: small cryptography, for tests.
-- - IsvApp: the application between the two, `main` of
--   attestation_abandoned/erlang-c-node-remote/isv_app/isv_app.cpp. Retry: its loops that call
--   again. Calls: its state. Round: the parts of a round. Main: a round and `main` without
--   arguments. Samples: the messages of isv_app/sample_messages.h. Verification: `main` with an
--   index of them. Keeps: parts that leave something as it is. Precomputed, Indices and Mismatch:
--   the mode with an index. Retries, Results, Delivery and Rounds: the loops, what is made of an
--   attestation result, the way of the secret, and the cleanup.
-- - QuoteServer: the sample that verifies quotes,
--   attestation_abandoned/attestation/quote-validation/QuoteVerificationServer. Enclave: the two
--   trusted functions of Enclave/Enclave.cpp. Dcap: what App/App.cpp uses of Intel's library and
--   of the system. Calls and App: `ecdsa_quote_verification` of App/App.cpp. Main:
--   `readBinaryContent` and `main` there. Reports: when the enclave accepts a report. Verdicts,
--   Unauthenticated and Lifetimes: what the verification returns, what bears on it, and its
--   enclave. Runs: whole runs.
-- - Prelude: names of the libraries, Boolean tests, lists and C integers. The modules called
--   Tests hold concrete runs.
--
-- The state of each part is a record: the counter for the small enclaves (Counter.Enclave), the
-- static variables `a`, `evp_pkey` and `keypair` with OpenSSL's own state for the large one
-- (Rsa.Enclave), the variables of the receive loop with the replies sent (CNode.Server),
-- `global_eid` with the SDK's state (Nif.Library), the variables of the attestation application
-- with the service provider's and the events (IsvApp.Calls.App), the world and the lines printed
-- of the quote server (QuoteServer.App.State), the open streams and the calls made
-- (Token.Launch.Host). A function is a map from a state to an outcome and a state. A 32-bit
-- integer is kept as its bit pattern below 2 ^ 32; a counter past INT32_MAX, which C leaves open,
-- wraps as the processor's addition does, and so do the counters of the attestation sample's
-- loops past INT_MIN. There is no fuel: the loops recurse on the input or on a table.
--
-- What is not part of the repository is a parameter. Sgx.Bridge carries a call into an enclave,
-- and promises only that SGX_SUCCESS means that the function has run. Sgx.Sdk is the creation of
-- enclaves; that a new identifier is none of a live enclave is what Intel's reference says, while
-- erlang-nif/README.md and erlang-nif_SSL/README.md say of a reload that the enclaves have the
-- same. Rsa.Crypto.OpenSsl is OpenSSL, with the reference counts of its manual pages as the
-- hypothesis CountsReferences. IsvEnclave.Crypto is the SDK's trusted cryptography,
-- IsvEnclave.Contexts.KeyExchange its key exchange, ServiceProvider.Libcrypto that of
-- sample_libcrypto, and QuoteServer.Enclave.Trusted and QuoteServer.Dcap.Dcap are what the quote
-- server uses; the records Digests and Hashes say that SHA-256 works, ServiceProvider.Sizes.Sizes
-- that the library keeps to the sizes in its header, QuoteServer.Verdicts.Settled that the
-- library's answers for a quote stay the same, and Secret.Session what the two have in common.
-- CNode.ErlInterface and the two records ErlNif are Erlang's C libraries. The answers of the
-- socket calls, of the file functions and of `sgx_create_enclave` are fields of the records
-- Answers. Of `sgx_create_enclave` and of an ecall the application's model takes that out
-- parameters are written only on success. Functions of <string.h> on arrays are written out in
-- Token/Buffer.
--
-- Not modelled: text printed for debugging, and the DER encodings that `rsa_key_gen` makes only
-- to print them; memory allocation, which outside the quote server is taken to succeed; the names
-- and the handshake of Erlang's distribution; the OCALLs `uprint`, `usgx_exit`, `ucreate_thread`
-- and `ocall_print_string` and the callback `vprintf_cb`, which print, exit or start a thread;
-- the tests of OpenSSL under erlang-nif_SSL/Enclave/tests; in the service provider, copies by
-- `memcpy_s` between arrays of one size, which cannot fail, as anything but copies; the printing
-- functions of attestation_abandoned/erlang-c-node-remote/isv_app; the headers of Intel's
-- libraries; the Erlang modules, the build files and the container images.
pub mod Prelude
pub mod Process
pub mod Sgx
pub mod Counter
pub mod CNode
pub mod Nif
pub mod Token
pub mod Rsa
pub mod RsaNif
pub mod IsvEnclave
pub mod ServiceProvider
pub mod IsvApp
pub mod QuoteServer
