-- ===== src/Lib.antt =====
-- The backend of a second-hand market: merchants keep products with a stock, put them on the shelf,
-- lock one unit for an order and complete or close it; buyers and guests keep favourites and a history
-- of views, a guest's become a buyer's on request, and buyers leave intents for products; every
-- request of an account is guarded by its session, and a request with an `Idempotency-Key` runs once.
--
-- Parts, and where they are modelled (paths from the root of the repository):
--   Errors            backend/internal/common/errors.go, response.go; `mapDatabaseError` of server.go
--   Model             backend/internal/model/models.go: text constants as data types whose last
--                     constructor `other` is any further text, rows as records
--   Database          gorm and the database behind it: `Tables` (a database gives every table its
--                     rows), `Gorm` (the interface, a parameter, with its laws), `Actions` (the
--                     statements), `Keys`, `Holds`, `Keeps`, `KeepsAt`, `Invert`, `Atomic`, `Leaves` (rules for
--                     proofs on them)
--   Stateflow         backend/internal/stateflow/stateflow.go
--   Request           backend/internal/app/server.go and ownership.go: the actor, the operation log and
--                     the loaders `loadOwnedProductForUpdate`, `loadOwnedOrderForUpdate`
--   Idempotency       backend/internal/app/idempotency.go
--   Inventory         backend/internal/app/inventory_service.go: `calculateStockAdjustment` and
--                     `adjustStock` in `Adjust`, `createOrder` and `transitionOrder` in `Orders`
--   Intents           backend/internal/app/buyer_intent_state.go and merchant_intent_handlers.go
--   Products          backend/internal/app/product_handlers.go: status changes; `Images` validates
--                     files (with backend/internal/media/detail_profile.go), `Edit` creates and edits
--                     (with `ensureMerchantLevel2Category` of category_handlers.go), `Delete`
--                     deletes a product and the files that no other product uses
--   Buyers            backend/internal/app/buyer_handlers.go: `Owner` (who asks, which shop, the rate
--                     limits), `Favorites`, `Histories`, `Merge` (`handleBuyerGuestMerge`)
--   Categories        backend/internal/app/category_handlers.go
--   Files             backend/internal/media/local_storage.go: `LocalObjectPath`
--   Session           backend/internal/app/session_guard.go and backend/internal/middleware/auth.go
--   Auth              backend/internal/app/auth_handlers.go with auth/jwt.go (`Tokens`),
--                     common/password.go (`Password`), passwords and accounts of admin_security.go,
--                     admin_accounts.go and merchant_handlers.go (`Accounts`)
--   RateLimiter       backend/internal/app/rate_limiter.go
--   System            the routes of server.go that change products, orders and intents, with their
--                     guards and handlers; `Buyers` has those of buyers and guests, `Trace` the
--                     sequences of requests
--   Invariant         what holds of every row between two requests
--   Tests             a database in memory that has gorm's laws, sample rows, runs
--
-- A handler is an `Action`: a function from the database to a result and the next database, written as
-- a do block in the order of the source's statements and early returns. `tx.Transaction(fn)` is an
-- operation of the interface: it commits what its body did or leaves no trace. A transaction is one step,
-- and requests are sequences of steps, one after another. The handlers of products and orders, those of
-- intents, `adminLogin` and the password change of administrators lock the rows that they work on (`FOR
-- UPDATE`). The others (favourites, histories and the merge of buyers, categories, `merchantLogin`,
-- refresh and logout, the password change of merchants, `updateMerchantAccount`) take no lock, so for
-- them the theorems say nothing of requests that interleave.
-- Any statement may fail; an error of a statement is a value that the handler maps as the source does. The
-- clock is a function from the number of the reading to a time, and the number that `BuildBizNo` draws is
-- a parameter of the request.
--
-- Numbers: ids are natural numbers; Go's `int` is the type ℤ of Base.Int, whose sums and differences
-- `+64` and `-64` wrap around at 64 bits; the columns `stock` and `reserved_stock` hold 32 bits, and a
-- statement that would write more fails. Loops run over lists and end with them, so no fuel is used.
-- Texts that the code walks are lists of character codes, other texts are native strings. A condition of
-- a statement compares texts code by code; a collation of MySQL that ignores case or accents would find
-- more rows for an owner's key, a merchant's number or a category's name.
--
-- Parameters: gorm (`Gorm`, with the laws `IsGorm` and, for idempotency, the unique index
-- `IsUniqueScope`), JSON and SHA-256 (`Codec`), the JWT library and bcrypt (`Crypto`), the parser of
-- access tokens, path/filepath (`Paths`), `time.Parse` and MySQL's comparison of a number with a text
-- (`Readers`).
--
-- Not modelled: the binding of request bodies by gin and its validation tags; reads that answer lists
-- and details; the creation of merchants and the login of buyers; the removal of stored objects after
-- a product is deleted; uploads, image processing and the writing of files; configuration, migrations
-- and scripts. Columns that gorm or MySQL fill by themselves (created_at, updated_at, open_marker) and
-- response fields that repeat them are left out.
pub mod Base
pub mod Errors
pub mod Model
pub mod Database
pub mod Stateflow
pub mod Request
pub mod Invariant
pub mod Idempotency
pub mod Session
pub mod Inventory
pub mod Products
pub mod Auth
pub mod Buyers
pub mod Categories
pub mod Intents
pub mod Files
pub mod RateLimiter
pub mod System
pub mod Tests
