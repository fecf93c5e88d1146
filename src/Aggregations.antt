-- ===== src/Aggregations.antt =====
-- src/aggregations: the steps of a pipeline. A step without state is the function from the message
-- that its handler gets to the message that it sends on; a closed mailbox is not modelled.
pub mod Buffer
pub mod Whitelist
pub mod Regex
pub mod SystemDetails
pub mod Container
pub mod Exec
