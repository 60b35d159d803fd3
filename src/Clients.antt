-- ===== src/Clients.antt =====
-- The small contracts around the registry: the receiver of verified calls
-- (contracts/human_checker), the basic income (contracts/ubi), the class that qualifies for it
-- (contracts/soulbound-class), and the demonstration issuer (contracts/demo-issuer).
pub mod HumanChecker
pub mod Ubi
pub mod Soulbound
pub mod DemoIssuer
mod Tests
