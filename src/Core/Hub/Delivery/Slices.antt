-- ===== src/Core/Hub/Delivery/Slices.antt =====
-- What one flush takes from a participant, and what stays.
