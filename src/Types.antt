-- ===== src/Types.antt =====
-- packages/shared-types: the vocabulary that the broker, the policy engine, the adapter and the FHE
-- gate share. The zod schemas are data types here, so a value of a type is what a schema lets through.
mod Operations
mod Classifications
mod Values
mod Errors
mod Names
pub use Operations.*
pub use Classifications.*
pub use Values.*
pub use Errors.*
pub use Names.*
unfoldable pub use Operations.{operation_to_intent}
unfoldable pub use Classifications.{mode_compatibility}
unfoldable pub use Names.{decimal, utf16_length, first_chars}
