-- ===== src/Lib.antt =====
-- Opus8-CF: a control plane (a Cloudflare worker over a D1 database) that enrolls edge nodes, checks
-- their signed requests and keeps their state.
--
-- A node is made known by an enrollment: an administrator creates one and gets a token, the node
-- exchanges the token for its secret, and its first signed registration activates the enrollment and
-- writes its credential. Every later request of the node is signed; verifyNodeRequest looks the
-- node's credential up and tries the secrets that it allows.
--
-- A user has devices, each with a credential under which it connects. A node is told the credentials
-- that it may serve, asks for the admission of each connection, and reports its use; the control
-- plane finds the user of the credential anew each time.
--
-- - Base: the shared helpers. Text is a list of code units, `Value` an unknown JavaScript value,
--   `Result` a call that may throw, and Base/Sql the reads and writes of a database table.
-- - Transport (packages/shared/src/transport.ts): normalizeTransportPath and its laws.
-- - Nodes (packages/control-plane/src/db.ts): the table `nodes` with getNode, upsertNode, touchNode.
-- - Enrollment (packages/control-plane/src/node-enrollment.ts): Fields has the validators, Tables
--   the rows, Create the making and the exchange of a token, Activate the activation, revocation,
--   retirement and deletion, Candidates the secrets of a node. The other files under Enrollment
--   hold what is proved of these.
-- - Signing (packages/shared/src/crypto.ts, packages/shared/src/index.ts): the comparison of
--   signatures and the messages that are signed.
-- - NodeAuth (packages/control-plane/src/node-auth.ts): verifyNodeRequest with all its guards.
-- - NodeHealth (packages/control-plane/src/node-health.ts): Report has normalizeReport, State the
--   rules and the rows, Batch applyNodeHealthReport, and Normal, Machine, Applied, Probed and Effect what is
--   proved of the input, of the rules over histories of probes, and of the tables.
-- - Alerts (packages/control-plane/src/alert-incidents.ts): reconcileAlertIncidents as the list of
--   the statements that it sends and their effect, and listAlertIncidents.
-- - Users (packages/control-plane/src/db.ts): Tables has the rows of users and devices, Accounts and
--   Devices the operations on them, with what becomes of a user's credentials below them.
-- - Credentials (packages/control-plane/src/device-credentials.ts and node-assignment.ts beside it):
--   the UUIDs of a device and the nodes of a user.
-- - Admission (packages/control-plane/src/usage.ts): the batch of admitConnection with its limits and
--   its verdict; Owner has resolveAuthorizedCredentialOwner and the whole of admitConnection, and
--   Authorized what a found owner shows. A window that the source writes as `now - x` stands as a sum
--   on the other side.
-- - Policy (packages/control-plane/src/db.ts): activeUserPolicy, the list that a node is given.
-- - Metering (packages/control-plane/src/usage.ts): the batch of recordUsage, whose sums of
--   the groups are added row by row; Intake has the checks of the events, their owners and the whole of
--   recordUsage.
-- - AccessStatus (packages/control-plane/src/access-status.ts): evaluateAccessStatus on the row of
--   listUsers. The comparison with nine tenths of a limit, which JavaScript makes with floating point
--   numbers, is an argument.
-- - SignedRequests (packages/control-plane/src/automation-auth.ts and integration-auth.ts beside it):
--   the verification of signed requests of other servers, and the claim of their ids.
-- - Maintenance (packages/control-plane/src/data-maintenance.ts): runDataMaintenance; Replay has the
--   histories of claims and clean-ups, Verdicts the admissions after a clean-up.
-- - PolicyCache (packages/control-plane/src/policy-cache.ts): the version of the policy and its push.
-- - RateLimits (packages/control-plane/src/admin-login-rate-limit.ts and subscription-rate-limit.ts
--   beside it), Compliance (packages/control-plane/src/compliance.ts) and Cors
--   (packages/control-plane/src/cors.ts): the gates in front of logins, subscriptions, changes and
--   requests of a browser.
-- - SecretBox (packages/control-plane/src/secret-box.ts and key-rotation.ts beside it) and LandingKeys
--   (packages/control-plane/src/landing-key-rotation.ts): sealed values, and their migration to a new
--   key. The loop over the batches has as many rounds as there are statements and one more.
-- - Benefits (packages/control-plane/src/webmaster-benefit.ts): the provisioning of a benefit over the
--   interface WebmasterBenefitStore; Store is the store of packages/control-plane/src/db.ts, Once what
--   the interface's laws give, Kept that the store has them, and Creations what later creations leave.
-- - Audit (packages/control-plane/src/admin-audit.ts) and Slo
--   (packages/control-plane/src/operations-slo.ts): the log of administrators, and the service levels.
-- - Routing (packages/control-plane/src/routing.ts): the list of the unlocked hosts. Normal has the
--   normal form of a host, Stored the list in its store, and Requests the PUT and the DELETE of
--   packages/control-plane/src/index.ts that change it, and Locked what the gate of Compliance does
--   for them.
-- - Tests: runs of the code on sample data, and the theorems applied to them.
--
-- A table is a list of rows, an operation a function from the tables to the tables and the answer,
-- and each statement of SQL one of the functions of Base/Sql with its condition written out. The
-- requests run one after another where a file does not say otherwise: Enrollment/History has the
-- statements of the enrollment in every order, and Benefits what other requests do in between. The
-- time, the random draws and the run time's functions (HMAC, JSON, `Number`, `String`) are
-- arguments. Numbers are unbounded; a limit that the code sets is written out. Recursion is on lists,
-- but for the batches of LandingKeys, which have fuel.
--
-- Not modelled: the user interface and the edge node's vendored core, which are no part of the
-- control plane's logic; the generation of subscription texts, the landing servers, the dashboard of
-- operations, and the other requests of packages/control-plane/src/index.ts.
pub mod Base
pub mod Transport
pub mod Nodes
pub mod Enrollment
pub mod Signing
pub mod NodeAuth
pub mod NodeHealth
pub mod Alerts
pub mod Users
pub mod Credentials
pub mod Admission
pub mod Metering
pub mod Policy
pub mod AccessStatus
pub mod SignedRequests
pub mod Maintenance
pub mod PolicyCache
pub mod RateLimits
pub mod Compliance
pub mod Cors
pub mod SecretBox
pub mod LandingKeys
pub mod Benefits
pub mod Audit
pub mod Slo
pub mod Routing
pub mod Tests
