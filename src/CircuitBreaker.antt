-- ===== src/CircuitBreaker.antt =====
-- internal/circuitbreaker. Each call takes the clock's reading where the code asks for the time;
-- times and durations are nanoseconds, and the durations are not negative.
pub mod State
pub mod FailureRate
pub mod Config
pub mod Window
pub mod Spec
pub mod Invariant
pub mod Refinement
pub mod Recovery
mod Tests
pub mod Layers
pub mod Composite
