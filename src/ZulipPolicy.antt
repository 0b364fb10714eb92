-- ===== src/ZulipPolicy.antt =====
-- Who may run which command of the bot: qb_site/zulip_bot/webhook/policy.py and membership.py. The
-- proofs are in Cached, Allowed and Ids.
pub mod Membership
pub mod Settings
pub mod Policy
pub mod Cached
pub mod Allowed
pub mod Ids
pub mod Tests
